-- ===== src/Thunks/Pages.antt =====
-- What `build_builtin_thunk_pages` returns.
use mathlib.Core.Path.{subst, fun_ext}
use binary_kernel_code_mappi.Prelude.{
  ℕ, ◌%◌, ◌≡◌, refl, sym, ap, ◌∙◌, ◌↔◌, ◌⊎◌, inl, inr, true, false, not, ◌&&◌, List, [], ◌∷◌, ◌++◌,
  Bytes, Text, All, map, length, length-replicate, select, ◌==◌, if◌then◌else◌, Bool-cases,
  List-cases, ok, arith,
}
use binary_kernel_code_mappi.Align.{page_size}
use binary_kernel_code_mappi.Align.Bounds.{align_down_page}
use binary_kernel_code_mappi.Symbols.{ResolvedSymbol}
use binary_kernel_code_mappi.Thunks.{
  PageBytes, registers_of, is_selected, has_page, blank_pages, thunk_code, is_synthetic, mark,
  place, place_all, build_builtin_thunk_pages,
}
use binary_kernel_code_mappi.Thunks.Writes.{IsPage}
use binary_kernel_code_mappi.Thunks.Placing.{
  page_of, marked, HasThunk, is_synthetic-Same, place_all-Built,
}
use binary_kernel_code_mappi.Thunks.Code.{Holds, IsApart, place_all_code}

IsPage-blank :
    (configured : List Text) (syms : List ResolvedSymbol) → All IsPage (blank_pages configured syms)
unfolding blank_pages
IsPage-blank configured [] = tt
IsPage-blank configured (s ∷ syms) =
    let rest = IsPage-blank configured syms in
    let page : page_of s % 4096 ≡ 0 = omega (arith, align_down_page s.address) in
    elim (Bool-cases
      (is_selected configured s && not (has_page (blank_pages configured syms) (page_of s)))) [
        | inl new ↦ rw new ((page, length-replicate {A = ℕ} page_size 0xcc), rest)
        | inr old ↦ rw old rest
      ]

-- A selected symbol whose page has this address.
abbrev pub HasSelected : List Text → ℕ → List ResolvedSymbol → Type 0
HasSelected configured a [] = ⊥
HasSelected configured a (s ∷ syms) =
    ((is_selected configured s ≡ true) × (page_of s ≡ a)) ⊎ HasSelected configured a syms

has_page-blank :
    (configured : List Text) (a : ℕ) (syms : List ResolvedSymbol)
    → (has_page (blank_pages configured syms) a ≡ true) ↔ HasSelected configured a syms
unfolding blank_pages has_page
has_page-blank configured a [] = ((λ h. cc), (λ h. absurd h))
has_page-blank configured a (s ∷ syms) =
    let known = has_page-blank configured (page_of s) syms in
    ground (arith, has_page-blank configured a syms, known)

-- Without pages the loop changes nothing, so the early return is no special case.
place_all-nil :
    (configured : List Text) (syms : List ResolvedSymbol)
    → place_all configured [] syms ≡ ok ([], syms)
unfolding place_all place is_synthetic has_page
place_all-nil configured [] = refl
place_all-nil configured (s ∷ syms) =
    let off : (s.defined && not (s.address == 0) && false) ≡ false = ground arith in
    rw (off, place_all-nil configured syms)

blank_pages-nil :
    (configured : List Text) (syms : List ResolvedSymbol)
    → select (is_selected configured) syms ≡ []
    → blank_pages configured syms ≡ []
unfolding blank_pages
blank_pages-nil configured [] h = refl
blank_pages-nil configured (s ∷ syms) h = elim (Bool-cases (is_selected configured s)) [
  | inl chosen ↦ absurd (let z = rw (chosen, select) at h in cc)
  | inr other ↦ rw other (blank_pages-nil configured syms (rw (other, select) at h))
]

build_builtin_thunk_pages-eq :
    (symbols : List ResolvedSymbol) (thunks : List Text)
    → build_builtin_thunk_pages symbols thunks
      ≡ place_all (registers_of thunks) (blank_pages (registers_of thunks) symbols) symbols
unfolding build_builtin_thunk_pages
build_builtin_thunk_pages-eq symbols thunks =
    let configured = registers_of thunks in
    elim (List-cases (select (is_selected configured) symbols)) [
      | inl empty ↦
          rw (empty, build_builtin_thunk_pages, blank_pages-nil configured symbols empty)
            (sym (place_all-nil configured symbols))
      | inr (s, rest, full) ↦ rw (full, build_builtin_thunk_pages)
    ]

-- When the pages are built: each is page-aligned and holds 4096 bytes; the addresses of the pages are exactly the
-- page addresses of the selected symbols; of the symbols exactly those on a page are marked, and no other changes;
-- and every symbol on a page has a thunk that is enabled and does not cross the end of the page.
pub build_builtin_thunk_pages_correct :
    (symbols : List ResolvedSymbol) (thunks : List Text) (pages : PageBytes)
    (symbols' : List ResolvedSymbol)
    → build_builtin_thunk_pages symbols thunks ≡ ok (pages, symbols')
    → All IsPage pages
      × ((a : ℕ) → (has_page pages a ≡ true) ↔ HasSelected (registers_of thunks) a symbols)
      × (symbols' ≡ map (marked pages) symbols)
      × All (λ s. is_synthetic pages s ≡ true → HasThunk (registers_of thunks) s) symbols
build_builtin_thunk_pages_correct symbols thunks pages symbols' h =
    let configured = registers_of thunks in
    let ps = blank_pages configured symbols in
    let b =
      place_all-Built configured ps pages symbols symbols'
        (sym (build_builtin_thunk_pages-eq symbols thunks) ∙ h) in
    let synthetic : is_synthetic ps ≡ is_synthetic pages =
      fun_ext (λ t. sym (is_synthetic-Same ps pages t b.same)) in
    (
      b.sized (IsPage-blank configured symbols),
      (λ a. rw (b.same a) (has_page-blank configured a symbols)),
      b.marks ∙ ap (λ p. map (λ t. if p t then mark t else t) symbols) synthetic,
      subst (λ p. All (λ t. p t ≡ true → HasThunk configured t) symbols) synthetic b.thunks,
    )

-- When the pages are built, a symbol on a page has its jump, or its return, at its offset in the page, provided
-- that the thunk of no later symbol on the page overlaps it.
pub build_builtin_thunk_pages_code :
    (before after : List ResolvedSymbol) (s : ResolvedSymbol) (thunks : List Text)
    (pages : PageBytes) (symbols' : List ResolvedSymbol) (code : Bytes)
    → build_builtin_thunk_pages (before ++ s ∷ after) thunks ≡ ok (pages, symbols')
    → is_synthetic pages s ≡ true
    → thunk_code (registers_of thunks) s.name ≡ ok code
    → All (IsApart (registers_of thunks) s (length code)) after
    → Holds pages s code
build_builtin_thunk_pages_code before after s thunks pages symbols' code h on is aparts =
    let configured = registers_of thunks in
    let symbols = before ++ s ∷ after in
    let ps = blank_pages configured symbols in
    let h' = sym (build_builtin_thunk_pages-eq symbols thunks) ∙ h in
    let b = place_all-Built configured ps pages symbols symbols' h' in
    place_all_code configured ps pages before after symbols' s code h'
      (IsPage-blank configured symbols) (sym (is_synthetic-Same ps pages s b.same) ∙ on) is aparts
