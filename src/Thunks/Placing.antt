-- ===== src/Thunks/Placing.antt =====
-- One round of the loop over the symbols, and the loop: which symbols are marked.
use mathlib.Core.Path.{subst, ap₂, fun_ext}
use binary_kernel_code_mappi.Prelude.{
  ℕ, ◌+◌, ◌-◌, ◌≤◌, ◌≡◌, ap, ◌∙◌, ◌⊎◌, inl, inr, true, false, List, [], ◌∷◌, Bytes, Text, All, map,
  length, ltb, ltb→ge, if◌then◌else◌, Bool-cases, ok, >>=-eq-ok,
}
use binary_kernel_code_mappi.Align.{page_size, align_down}
use binary_kernel_code_mappi.Symbols.{ResolvedSymbol}
use binary_kernel_code_mappi.Thunks.{
  PageBytes, has_page, write_page, thunk_code, is_synthetic, mark, place, place_all,
}
use binary_kernel_code_mappi.Thunks.Writes.{has_page-write_page, IsPage, IsPage-write}

-- The page address of a symbol, and its offset in the page.
abbrev pub page_of : ResolvedSymbol → ℕ
page_of s = align_down s.address page_size

abbrev pub offset_of : ResolvedSymbol → ℕ
offset_of s = s.address - page_of s

-- A symbol on a synthetic page is marked, and no other changes.
abbrev pub marked : PageBytes → ResolvedSymbol → ResolvedSymbol
marked pages s = if is_synthetic pages s then mark s else s

-- What one round of the loop does: nothing, or a write and a mark.
abbrev pub IsPlaced : List Text → PageBytes → ResolvedSymbol → PageBytes → ResolvedSymbol → Type 0
IsPlaced configured pages s pages' s' =
    ((is_synthetic pages s ≡ false) × (pages' ≡ pages) × (s' ≡ s))
    ⊎ ((code : Bytes) × (is_synthetic pages s ≡ true)
        × (thunk_code configured s.name ≡ ok code)
        × (offset_of s + length code ≤ 4096)
        × (pages' ≡ write_page pages (page_of s) (offset_of s) code)
        × (s' ≡ mark s))

place-IsPlaced :
    (configured : List Text) (pages : PageBytes) (s : ResolvedSymbol) (pages' : PageBytes)
    (s' : ResolvedSymbol)
    → place configured pages s ≡ ok (pages', s')
    → IsPlaced configured pages s pages' s'
unfolding place
place-IsPlaced configured pages s pages' s' h = elim (Bool-cases (is_synthetic pages s)) [
  | inl on ↦
      let (code, e, h') = >>=-eq-ok (thunk_code configured s.name) _ (rw on at h) in
      elim (Bool-cases (ltb page_size (offset_of s + length code))) [
        | inl over ↦ absurd (let z = rw over at h' in cc)
        | inr fits ↦ let z = rw fits at h' in inr (code, on, e, ltb→ge _ _ fits, (cc), (cc))
      ]
  | inr off ↦ let z = rw off at h in inl (off, (cc), (cc))
]

-- The set of pages is never changed.
abbrev pub SamePages : PageBytes → PageBytes → Type 0
SamePages pages pages' = (a : ℕ) → has_page pages' a ≡ has_page pages a

pub is_synthetic-Same :
    (pages pages' : PageBytes) (s : ResolvedSymbol)
    → SamePages pages pages'
    → is_synthetic pages' s ≡ is_synthetic pages s
unfolding is_synthetic
is_synthetic-Same pages pages' s same = rw (same (page_of s))

pub IsPlaced-Same :
    (configured : List Text) (pages : PageBytes) (s : ResolvedSymbol) (pages' : PageBytes)
    (s' : ResolvedSymbol)
    → IsPlaced configured pages s pages' s'
    → SamePages pages pages' × (s' ≡ marked pages s)
IsPlaced-Same configured pages s pages' s' (inl (off, e, e')) = ((λ a. rw e), rw (off, e'))
IsPlaced-Same configured pages s pages' s' (inr (code, on, _, fits, e, e')) =
    ((λ a. rw e (has_page-write_page pages (page_of s) (offset_of s) code a)), rw (on, e'))

-- A symbol of this name can be placed at this offset.
abbrev pub HasThunk : List Text → ResolvedSymbol → Type 0
HasThunk configured s =
    (code : Bytes) × (thunk_code configured s.name ≡ ok code) × (offset_of s + length code ≤ 4096)

pub record Built (configured : List Text) (ps pages : PageBytes) (syms syms' : List ResolvedSymbol)
    : Type 0 where
  pub same : SamePages ps pages
  pub marks : syms' ≡ map (marked ps) syms
  pub sized : All IsPage ps → All IsPage pages
  pub thunks : All (λ s. is_synthetic ps s ≡ true → HasThunk configured s) syms

-- Inversion of a successful round with the rest of the loop.
pub place_all-step :
    (configured : List Text) (ps pages : PageBytes) (s : ResolvedSymbol)
    (syms syms' : List ResolvedSymbol)
    → place_all configured ps (s ∷ syms) ≡ ok (pages, syms')
    → (qs : PageBytes) × (s' : ResolvedSymbol) × (rest : List ResolvedSymbol) × IsPlaced configured
        ps s qs s'
      × (place_all configured qs syms ≡ ok (pages, rest))
      × (syms' ≡ s' ∷ rest)
unfolding place_all
place_all-step configured ps pages s syms syms' h =
    let (one, e, h') = >>=-eq-ok (place configured ps s) _ h in
    let (two, e', h'') = >>=-eq-ok (place_all configured one.0 syms) _ h' in
    (one.0, one.1, two.1, place-IsPlaced configured ps s one.0 one.1 e, (cc), (cc))

pub IsPlaced-HasThunk :
    (configured : List Text) (ps : PageBytes) (s : ResolvedSymbol) (qs : PageBytes)
    (s' : ResolvedSymbol)
    → IsPlaced configured ps s qs s'
    → is_synthetic ps s ≡ true
    → HasThunk configured s
IsPlaced-HasThunk configured ps s qs s' (inl (off, _, _)) on = cc
IsPlaced-HasThunk configured ps s qs s' (inr (code, _, e, fits, _, _)) on = (code, e, fits)

pub IsPlaced-sized :
    (configured : List Text) (ps : PageBytes) (s : ResolvedSymbol) (qs : PageBytes)
    (s' : ResolvedSymbol)
    → IsPlaced configured ps s qs s'
    → All IsPage ps
    → All IsPage qs
IsPlaced-sized configured ps s qs s' (inl (_, e, _)) h = rw e h
IsPlaced-sized configured ps s qs s' (inr (code, _, _, fits, e, _)) h =
    rw e (IsPage-write ps (page_of s) (offset_of s) code fits h)

pub place_all-Built :
    (configured : List Text) (ps pages : PageBytes) (syms syms' : List ResolvedSymbol)
    → place_all configured ps syms ≡ ok (pages, syms')
    → Built configured ps pages syms syms'
unfolding place_all
place_all-Built configured ps pages [] syms' h =
    let e : pages ≡ ps = cc in
    record { same = λ a. rw e; marks = cc; sized = λ hs. rw e hs; thunks = tt }
place_all-Built configured ps pages (s ∷ syms) syms' h =
    let (qs, s', rest, placed, h', e) = place_all-step configured ps pages s syms syms' h in
    let b = place_all-Built configured qs pages syms rest h' in
    let (same, marks) = IsPlaced-Same configured ps s qs s' placed in
    let synthetic : is_synthetic qs ≡ is_synthetic ps =
      fun_ext (λ t. is_synthetic-Same ps qs t same) in
    record {
      same = λ a. b.same a ∙ same a;
      marks =
          e
          ∙ ap₂ (λ x xs. x ∷ xs) marks
              (b.marks ∙ ap (λ p. map (λ t. if p t then mark t else t) syms) synthetic);
      sized = λ h. b.sized (IsPlaced-sized configured ps s qs s' placed h);
      thunks = (
        IsPlaced-HasThunk configured ps s qs s' placed,
        subst (λ p. All (λ t. p t ≡ true → HasThunk configured t) syms) synthetic b.thunks,
      );
    }
