-- ===== src/Words/Layout.antt =====
-- Reading back what was packed. A cursor is described by what the blob holds behind it,
-- `drop off blob ≡ …`.
use native.Mathlib.Nat.{pow-suc, zero-add, suc-add}
use mathlib.Core.List.{append_assoc}
use mathlib.Core.Path.{ap₂}
use binary_kernel_code_mappi.Prelude.{
  ℕ, zero, suc, ◌+◌, ◌*◌, ◌/◌, ◌^◌, ◌<◌, ◌≡◌, refl, sym, ap, ◌∙◌, ◌≢◌, List, [], ◌∷◌, ◌++◌, some,
  get_elem?, Bytes, All, length, take, drop, length-append, take-append, drop-append, arith,
}
use binary_kernel_code_mappi.Words.{le, to_le, field, read_u32s, words, until_nul}

pub length-to_le : (w v : ℕ) → length (to_le w v) ≡ w
unfolding to_le
length-to_le zero v = refl
length-to_le (suc w) v = ap suc (length-to_le w (v / 256))

pub le-to_le : (w v : ℕ) → v < 256 ^ w → le (to_le w v) ≡ v
unfolding le to_le
le-to_le zero v h = omega arith
le-to_le (suc w) v h =
    let e = pow-suc 256 w in omega (arith, le-to_le w (v / 256) (omega (arith, e)))

drop-nil {ℓ} : {A : Type ℓ} (n : ℕ) → drop {A = A} n [] ≡ []
drop-nil zero = refl
drop-nil (suc n) = refl

pub drop-drop {ℓ} : {A : Type ℓ} (m n : ℕ) (xs : List A) → drop (m + n) xs ≡ drop n (drop m xs)
drop-drop zero n xs = ap (λ k. drop k xs) (zero-add n)
drop-drop (suc m) n [] = drop-nil (suc m + n) ∙ sym (drop-nil n)
drop-drop (suc m) n (x ∷ xs) = ap (λ k. drop k (x ∷ xs)) (suc-add m n) ∙ drop-drop m n xs

-- A packed field is read back, and the cursor moves behind it.
pub field-to_le :
    (w v off : ℕ) (blob rest : Bytes)
    → v < 256 ^ w
    → drop off blob ≡ to_le w v ++ rest
    → (field blob off w ≡ v) × (drop (off + w) blob ≡ rest)
unfolding field
field-to_le w v off blob rest h e =
    let n = length-to_le w v in
    let bytes : take w (to_le w v ++ rest) ≡ to_le w v =
      ap (λ k. take k (to_le w v ++ rest)) (sym n) ∙ take-append (to_le w v) rest in
    let behind : drop w (to_le w v ++ rest) ≡ rest =
      ap (λ k. drop k (to_le w v ++ rest)) (sym n) ∙ drop-append (to_le w v) rest in
    (
      ap (λ bs. le (take w bs)) e ∙ ap le bytes ∙ le-to_le w v h,
      drop-drop off w blob ∙ ap (drop w) e ∙ behind,
    )

abbrev pub AreU32 : List ℕ → Type 0
AreU32 = All (λ v. v < 2 ^ 32)

pub length-words : (vs : List ℕ) → length (words vs) ≡ 4 * length vs
unfolding words
length-words [] = refl
length-words (v ∷ vs) =
    omega (arith, length-append (to_le 4 v) (words vs), length-words vs, length-to_le 4 v)

pub read_u32s-words :
    (vs : List ℕ) (off : ℕ) (blob rest : Bytes)
    → AreU32 vs
    → drop off blob ≡ words vs ++ rest
    → read_u32s (length vs) blob off ≡ vs
unfolding read_u32s words
read_u32s-words [] off blob rest h e = refl
read_u32s-words (v ∷ vs) off blob rest (hv, hs) e =
    let (value, behind) =
      field-to_le 4 v off blob (words vs ++ rest) hv
        (e ∙ append_assoc (to_le 4 v) (words vs) rest) in
    ap₂ (λ a rest. a ∷ rest) value (read_u32s-words vs (off + 4) blob rest hs behind)

-- The cursor `off` of `blob` stands before `rest`.
pub record At (blob : Bytes) (off : ℕ) (rest : Bytes) : Type 0 where
  pub behind : drop off blob ≡ rest
  pub size : off + length rest ≡ length blob

pub At-start : (blob : Bytes) → At blob 0 blob
At-start blob = record { behind = refl; size = omega arith }

pub At-append :
    (blob : Bytes) (off : ℕ) (front rest : Bytes)
    → At blob off (front ++ rest)
    → At blob (off + length front) rest
At-append blob off front rest h = record {
  behind =
      drop-drop off (length front) blob
      ∙ ap (drop (length front)) h.behind
      ∙ drop-append front rest;
  size = let whole = h.size in omega (arith, length-append front rest);
}

-- The i-th word behind the cursor.
pub field-words :
    (vs : List ℕ) (i v off : ℕ) (blob rest : Bytes)
    → AreU32 vs
    → get_elem? vs i ≡ some v
    → drop off blob ≡ words vs ++ rest
    → field blob (off + 4 * i) 4 ≡ v
unfolding words
field-words [] i v off blob rest h at e = cc
field-words (w ∷ vs) zero v off blob rest (hw, hs) at e =
    let start : off + 4 * 0 ≡ off = omega arith in
    let (value, _) =
      field-to_le 4 w off blob (words vs ++ rest) hw
        (e ∙ append_assoc (to_le 4 w) (words vs) rest) in
    let same : w ≡ v = cc in rw start (value ∙ same)
field-words (w ∷ vs) (suc i) v off blob rest (hw, hs) at e =
    let (_, behind) =
      field-to_le 4 w off blob (words vs ++ rest) hw
        (e ∙ append_assoc (to_le 4 w) (words vs) rest) in
    let next : off + 4 * suc i ≡ off + 4 + 4 * i = omega arith in
    rw next (field-words vs i v (off + 4) blob rest hs at behind)

pub until_nul-append : (s rest : Bytes) → All (λ b. b ≢ 0) s → until_nul (s ++ 0 ∷ rest) ≡ some s
unfolding until_nul
until_nul-append [] rest h = refl
until_nul-append (b ∷ s) rest (hb, hs) = ground (arith, until_nul-append s rest hs)
