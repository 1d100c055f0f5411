-- ===== src/Thunks/Code.antt =====
-- The code of a placed thunk stands in its page when the loop is done, if later thunks keep away from it.
use binary_kernel_code_mappi.Prelude.{
  ℕ, ◌+◌, ◌-◌, ◌≤◌, ◌<◌, ◌≡◌, sym, ap, ◌∙◌, ◌⊎◌, inl, inr, true, false, List, [], ◌∷◌, ◌++◌, Option,
  some, Bytes, Text, All, length, get_elem?, ltb, ◌==◌, ==_iff, if◌then◌else◌, Bool-cases, ok,
  arith,
}
use binary_kernel_code_mappi.Symbols.{ResolvedSymbol}
use binary_kernel_code_mappi.Thunks.{
  PageBytes, has_page, write_at, write_page, thunk_code, is_synthetic, place_all,
}
use binary_kernel_code_mappi.Thunks.Writes.{
  get_elem?-write_at, page_at, page_at-write_self, page_at-write_ne, page_at_of_has, IsPage,
  page_at-length,
}
use binary_kernel_code_mappi.Thunks.Placing.{
  page_of, offset_of, IsPlaced, is_synthetic-Same, IsPlaced-Same, IsPlaced-sized, place_all-step,
}

-- The code of `s` stands at its offset in its page.
abbrev pub Holds : PageBytes → ResolvedSymbol → Bytes → Type 0
Holds pages s code =
    (b : Bytes) × (page_at pages (page_of s) ≡ some b)
    × ((i : ℕ) → i < length code → get_elem? b (offset_of s + i) ≡ get_elem? code i)

-- The thunk of `t`, if it has one, lies in another page than the n bytes of `s`, or beside them.
abbrev pub IsApart : List Text → ResolvedSymbol → ℕ → ResolvedSymbol → Type 0
IsApart configured s n t =
    (c : Bytes)
    → thunk_code configured t.name ≡ ok c
    → (page_of t == page_of s) ≡ false
      ⊎ (offset_of s + n ≤ offset_of t)
      ⊎ (offset_of t + length c ≤ offset_of s)

has_page_of_synthetic :
    (pages : PageBytes) (s : ResolvedSymbol)
    → is_synthetic pages s ≡ true
    → has_page pages (page_of s) ≡ true
unfolding is_synthetic
has_page_of_synthetic pages s h = ground arith

Holds-write_self :
    (pages : PageBytes) (s : ResolvedSymbol) (code : Bytes)
    → All IsPage pages
    → has_page pages (page_of s) ≡ true
    → offset_of s + length code ≤ 4096
    → Holds (write_page pages (page_of s) (offset_of s) code) s code
Holds-write_self pages s code sized has fits =
    let (b, at) = page_at_of_has pages (page_of s) has in
    let size = page_at-length pages (page_of s) b sized at in
    (
      write_at b (offset_of s) code,
      page_at-write_self pages (page_of s) (offset_of s) code b at,
      λ i lt.
          get_elem?-write_at b (offset_of s) code (offset_of s + i) (omega arith)
          ∙ inside (offset_of s) (length code) i lt (get_elem? b (offset_of s + i)) code,
    )
  where
    inside :
        (off n i : ℕ)
        → i < n
        → (other : Option ℕ) (code : Bytes)
        → (if ltb (off + i) off
            then other
            else if ltb (off + i) (off + n)
            then get_elem? code (off + i - off)
            else other)
          ≡ get_elem? code i
    inside off n i lt other code = let e : off + i - off ≡ i = omega arith in rw e (ground arith)

Holds-IsPlaced :
    (configured : List Text) (pages : PageBytes) (t : ResolvedSymbol) (pages' : PageBytes)
    (t' : ResolvedSymbol) (s : ResolvedSymbol) (code : Bytes)
    → IsPlaced configured pages t pages' t'
    → All IsPage pages
    → IsApart configured s (length code) t
    → Holds pages s code
    → Holds pages' s code
Holds-IsPlaced configured pages t pages' t' s code (inl (_, e, _)) sized apart h = rw e h
Holds-IsPlaced configured pages t pages' t' s code (inr (c, on, is, fits, e, _)) sized apart
      (b, at, holds) =
    rw e (elim (Bool-cases (page_of t == page_of s)) [
      | inr other ↦
          (b, page_at-write_ne pages (page_of t) (offset_of t) c (page_of s) other ∙ at, holds)
      | inl same ↦
          let p : page_of t ≡ page_of s = (==_iff (page_of t) (page_of s)).0 same in
          let off = offset_of t in
          let size = page_at-length pages (page_of s) b sized at in
          (
            write_at b off c,
            ap (page_at (write_page pages (page_of t) off c)) (sym p)
                ∙ page_at-write_self pages (page_of t) off c b (ap (page_at pages) p ∙ at),
            λ i lt.
                get_elem?-write_at b off c (offset_of s + i) (omega arith)
                ∙ outside off (length c) (offset_of s) (length code) i lt (beside same)
                    (get_elem? b (offset_of s + i)) (get_elem? c (offset_of s + i - off))
                ∙ holds i lt,
          )
    ])
  where
    beside :
        (page_of t == page_of s) ≡ true
        → (offset_of s + length code ≤ offset_of t) ⊎ (offset_of t + length c ≤ offset_of s)
    beside same = elim (apart c is) [ inl other ↦ cc | inr away ↦ away ]

    outside :
        (off n at m i : ℕ)
        → i < m
        → (at + m ≤ off) ⊎ (off + n ≤ at)
        → (x y : Option ℕ)
        → (if ltb (at + i) off then x else if ltb (at + i) (off + n) then y else x) ≡ x
    outside off n at m i lt (inl before) x y = ground arith
    outside off n at m i lt (inr after) x y = ground arith

Holds-place_all :
    (configured : List Text) (ps pages : PageBytes) (syms syms' : List ResolvedSymbol)
    (s : ResolvedSymbol) (code : Bytes)
    → place_all configured ps syms ≡ ok (pages, syms')
    → All IsPage ps
    → All (IsApart configured s (length code)) syms
    → Holds ps s code
    → Holds pages s code
unfolding place_all
Holds-place_all configured ps pages [] syms' s code h sized apart holds =
    let e : pages ≡ ps = cc in rw e holds
Holds-place_all configured ps pages (t ∷ syms) syms' s code h sized (apart, aparts) holds =
    let (qs, t', rest, placed, h', e) = place_all-step configured ps pages t syms syms' h in
    Holds-place_all configured qs pages syms rest s code h'
      (IsPlaced-sized configured ps t qs t' placed sized) aparts
      (Holds-IsPlaced configured ps t qs t' s code placed sized apart holds)

pub place_all_code :
    (configured : List Text) (ps pages : PageBytes) (before after syms' : List ResolvedSymbol)
    (s : ResolvedSymbol) (code : Bytes)
    → place_all configured ps (before ++ s ∷ after) ≡ ok (pages, syms')
    → All IsPage ps
    → is_synthetic ps s ≡ true
    → thunk_code configured s.name ≡ ok code
    → All (IsApart configured s (length code)) after
    → Holds pages s code
place_all_code configured ps pages [] after syms' s code h sized on is aparts =
    let (qs, s', rest, placed, h', e) = place_all-step configured ps pages s after syms' h in
    Holds-place_all configured qs pages after rest s code h'
      (IsPlaced-sized configured ps s qs s' placed sized) aparts (written qs s' placed)
  where
    written :
        (qs : PageBytes) (s' : ResolvedSymbol) → IsPlaced configured ps s qs s' → Holds qs s code
    written qs s' (inl (off, _, _)) = absurd (cc)
    written qs s' (inr (c, _, is', fits, e, _)) =
        let same : c ≡ code = cc in
        rw (e, same)
          (Holds-write_self ps s code sized (has_page_of_synthetic ps s on) (rw same at fits))
place_all_code configured ps pages (t ∷ before) after syms' s code h sized on is aparts =
    let (qs, t', rest, placed, h', e) =
      place_all-step configured ps pages t (before ++ s ∷ after) syms' h in
    let (same, _) = IsPlaced-Same configured ps t qs t' placed in
    place_all_code configured qs pages before after rest s code h'
      (IsPlaced-sized configured ps t qs t' placed sized) (is_synthetic-Same ps qs s same ∙ on) is
      aparts
