-- ===== src/Btf/Layouts/Keys.antt =====
-- Keys of written types, and lists of distinct keys.
use mathlib.Core.Path.{subst}
use binary_kernel_code_mappi.Prelude.{
  ℕ, ◌≡◌, refl, sym, ◌∙◌, ◌⊎◌, ◌↔◌, inl, inr, ==_iff, ◌||◌, true, false, List, [], ◌∷◌, ◌++◌, none,
  some, text_eq_iff, text_eq_refl, In, Bool-cases, arith,
}
use binary_kernel_code_mappi.Btf.Sources.{BtfSource}
use binary_kernel_code_mappi.Btf.Layouts.{Key, named, anonymous, same_key, has_key, layout_key}

pub same_key_sound : (a b : Key) → same_key a b ≡ true → a ≡ b
unfolding same_key
same_key_sound (named k n) (named k' n') h = ground (arith, text_eq_iff k k', text_eq_iff n n')
same_key_sound (anonymous k l i) (anonymous k' l' i') h =
    ground (arith, text_eq_iff k k', text_eq_iff l l', ==_iff i i')
same_key_sound (named k n) (anonymous k' l' i') h = cc
same_key_sound (anonymous k l i) (named k' n') h = cc

pub same_key_refl : (a : Key) → same_key a a ≡ true
unfolding same_key
same_key_refl (named k n) = ground (arith, text_eq_refl k, text_eq_refl n)
same_key_refl (anonymous k l i) = ground (arith, text_eq_refl k, text_eq_refl l, ==_iff i i)

pub has_key-cons :
    (k key : Key) (keys : List Key)
    → has_key (k ∷ keys) key ≡ true
    → (key ≡ k) ⊎ (has_key keys key ≡ true)
unfolding has_key
has_key-cons k key keys h = elim (Bool-cases (same_key k key)) [
  | inl same ↦ inl (sym (same_key_sound k key same))
  | inr other ↦ inr (rw other at h)
]

pub has_key-head : (key : Key) (keys : List Key) → has_key (key ∷ keys) key ≡ true
unfolding has_key
has_key-head key keys = rw (same_key_refl key) refl

pub has_key-tail :
    (k key : Key) (keys : List Key) → has_key keys key ≡ true → has_key (k ∷ keys) key ≡ true
unfolding has_key
has_key-tail k key keys h = ground arith

-- The keys of the types that are written.
abbrev pub keys_of : BtfSource → List ℕ → List Key
keys_of src [] = []
keys_of src (tid ∷ tids) =
    let rest = keys_of src tids in elim (layout_key src tid) [ none ↦ rest | some key ↦ key ∷ rest ]

abbrev pub all_keys : List (BtfSource × List ℕ) → List Key
all_keys [] = []
all_keys ((src, tids) ∷ sources) = keys_of src tids ++ all_keys sources

abbrev pub IsDistinctKeys : List Key → Type 0
IsDistinctKeys [] = Unit {0}
IsDistinctKeys (key ∷ keys) = (has_key keys key ≡ false) × IsDistinctKeys keys

pub has_key-In : (keys : List Key) (key : Key) → (has_key keys key ≡ true) ↔ In key keys
unfolding has_key
has_key-In [] key = (λ h. cc, λ h. absurd h)
has_key-In (k ∷ keys) key = (
  λ h. elim (has_key-cons k key keys h) [
    | inl same ↦ inl same
    | inr later ↦ inr ((has_key-In keys key).0 later)
  ],
  λ h. elim h [
    | inl same ↦ subst (λ y. has_key (y ∷ keys) key ≡ true) same (has_key-head key keys)
    | inr later ↦ has_key-tail k key keys ((has_key-In keys key).1 later)
  ],
)

pub has_key-append :
    (a b : List Key) (key : Key) → has_key (a ++ b) key ≡ (has_key a key || has_key b key)
unfolding has_key
has_key-append [] b key = refl
has_key-append (k ∷ a) b key = ground (arith, has_key-append a b key)

pub IsDistinctKeys-append :
    (a b : List Key)
    → IsDistinctKeys a
    → IsDistinctKeys b
    → ((key : Key) → In key b → has_key a key ≡ false)
    → IsDistinctKeys (a ++ b)
unfolding has_key
IsDistinctKeys-append [] b da db apart = db
IsDistinctKeys-append (k ∷ a) b (alone, da) db apart = (
  has_key-append a b k
      ∙ rw alone (elim (Bool-cases (has_key b k)) [
        | inr absent ↦ absent
        | inl there ↦
            let twice : has_key (k ∷ a) k ≡ false = apart k ((has_key-In b k).0 there) in
            let once : has_key (k ∷ a) k ≡ true = has_key-head k a in cc
      ]),
  IsDistinctKeys-append a b da db (λ key at. let h = apart key at in ground arith),
)
