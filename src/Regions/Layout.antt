-- ===== src/Regions/Layout.antt =====
-- What `_build_regions` and `_assign_symbol_sections` return.
use mathlib.Core.Path.{subst}
use binary_kernel_code_mappi.Prelude.{
  ℕ, ◌+◌, ◌%◌, ◌≤◌, ◌<◌, max, ◌≡◌, refl, sym, ap, ◌↔◌, inl, inr, ◌&&◌, List, [], ◌∷◌, ◌++◌, map,
  some, Text, In, All, All-append, Bool-cases, ltb, ltb→ge, leb, ok, arith,
}
use binary_kernel_code_mappi.Align.{page_size, align, align_down}
use binary_kernel_code_mappi.Align.Bounds.{align_page, align_down_page}
use binary_kernel_code_mappi.Symbols.{ResolvedSymbol}
use binary_kernel_code_mappi.Regions.{
  Region, Interval, page_span, symbol_intervals, range_intervals, intervals, sort_intervals,
  merge_from, merge, numbered_regions, name_regions, build_regions, find_region_for_address,
  assign_symbol_sections,
}
use binary_kernel_code_mappi.Regions.Touched.{IsTouched, intervals-IsTouched}
use binary_kernel_code_mappi.Regions.Merging.{
  IsCovered, IsSeparated, All-sort_intervals, IsCovered-merge, IsSeparated-merge,
}

-- Whole pages, and at least one.
abbrev pub IsPages : Interval → Type 0
IsPages i = (i.0 % 4096 ≡ 0) × (i.1 % 4096 ≡ 0) × (i.0 < i.1)

abbrev pub IsRange : Interval → Type 0
IsRange i = i.0 ≤ i.1

abbrev pub bounds : Region → Interval
bounds r = (r.start, r.end)

page_span-IsPages : (first last : ℕ) → first ≤ last → IsPages (page_span first last)
unfolding page_span
page_span-IsPages first last h =
    let down = align_down_page first in
    let up = align_page last in
    let a : align_down first page_size % 4096 ≡ 0 = rw down (omega arith) in
    let b : align last page_size % 4096 ≡ 0 = rw up (omega arith) in
    let le : align_down first page_size ≤ align last page_size = omega (arith, down, up) in
    ground arith

-- The span holds every address from `first` up to `last`.
page_span-holds :
    (first last x : ℕ)
    → first ≤ x
    → x < last
    → ((page_span first last).0 ≤ x) × (x < (page_span first last).1)
unfolding page_span
page_span-holds first last x h k = ground (arith, align_down_page first, align_page last)

symbol_intervals-IsPages : (syms : List ResolvedSymbol) → All IsPages (symbol_intervals syms)
unfolding symbol_intervals
symbol_intervals-IsPages [] = tt
symbol_intervals-IsPages (s ∷ syms) = (
  page_span-IsPages s.address (s.address + max s.size 1) (omega arith),
  symbol_intervals-IsPages syms,
)

range_intervals-IsPages :
    (ranges : List Interval) → All IsRange ranges → All IsPages (range_intervals ranges)
unfolding range_intervals
range_intervals-IsPages [] h = tt
range_intervals-IsPages ((s, e) ∷ ranges) (h, hs) =
    (page_span-IsPages s e h, range_intervals-IsPages ranges hs)

merge_from-IsPages :
    (s e : ℕ) (is : List Interval)
    → IsPages (s, e)
    → All IsPages is
    → All IsPages (merge_from s e is)
unfolding merge_from
merge_from-IsPages s e [] p h = (p, tt)
merge_from-IsPages s e ((a, b) ∷ is) p (h, hs) = elim (Bool-cases (ltb e a)) [
  | inl apart ↦ rw apart (p, merge_from-IsPages a b is h hs)
  | inr joined ↦ rw joined (merge_from-IsPages s (max e b) is (joined_pages (ltb→ge e a joined)) hs)
]
  where
    joined_pages : a ≤ e → IsPages (s, max e b)
    joined_pages le = ground arith

merge-IsPages : (is : List Interval) → All IsPages is → All IsPages (merge is)
unfolding merge
merge-IsPages [] h = tt
merge-IsPages ((s, e) ∷ is) (h, hs) = merge_from-IsPages s e is h hs

bounds-numbered_regions :
    (base : Text) (idx : ℕ) (is : List Interval) → map bounds (numbered_regions base idx is) ≡ is
unfolding numbered_regions
bounds-numbered_regions base idx [] = refl
bounds-numbered_regions base idx ((s, e) ∷ is) =
    ap (λ rest. (s, e) ∷ rest) (bounds-numbered_regions base (idx + 1) is)

bounds-name_regions : (base : Text) (is : List Interval) → map bounds (name_regions base is) ≡ is
unfolding name_regions
bounds-name_regions base [] = bounds-numbered_regions base 0 []
bounds-name_regions base ((s, e) ∷ []) = refl
bounds-name_regions base (i ∷ j ∷ is) = bounds-numbered_regions base 0 (i ∷ j ∷ is)

-- Where no extra range ends before it starts: the regions are whole pages; each ends before the next starts, with
-- a gap; and together they cover exactly the pages of the addresses of each symbol's bytes, one byte at least, and
-- of each extra range, for an empty range those of its first address.
pub build_regions-layout :
    (symbols : List ResolvedSymbol) (base_name : Text) (extra_ranges : List Interval)
    → All IsRange extra_ranges
    → All IsPages (map bounds (build_regions symbols base_name extra_ranges))
      × IsSeparated (map bounds (build_regions symbols base_name extra_ranges))
      × ((x : ℕ)
          → IsCovered x (map bounds (build_regions symbols base_name extra_ranges))
            ↔ IsTouched symbols extra_ranges x)
unfolding build_regions intervals
build_regions-layout symbols base_name extra_ranges h =
    let is = intervals symbols extra_ranges in
    let pages : All IsPages is =
      All-append IsPages (symbol_intervals symbols) (range_intervals extra_ranges)
        (symbol_intervals-IsPages symbols) (range_intervals-IsPages extra_ranges h) in
    rw (bounds-name_regions base_name (merge (sort_intervals is))) (
      merge-IsPages (sort_intervals is) (All-sort_intervals IsPages is pages),
      IsSeparated-merge is,
      λ x.
          (let merged = IsCovered-merge x is in
            let touched = intervals-IsTouched symbols extra_ranges x h in
            (λ c. touched.0 (merged.0 c), λ t. merged.1 (touched.1 t))),
    )

IsCovered-left : (x : ℕ) (is js : List Interval) → IsCovered x is → IsCovered x (is ++ js)
IsCovered-left x [] js h = absurd h
IsCovered-left x ((s, e) ∷ is) js (inl h) = inl h
IsCovered-left x ((s, e) ∷ is) js (inr h) = inr (IsCovered-left x is js h)

-- Every symbol's address is covered by the symbol's own span.
symbols-IsCovered :
    (s : ResolvedSymbol) (syms : List ResolvedSymbol)
    → In s syms
    → IsCovered s.address (symbol_intervals syms)
unfolding symbol_intervals
symbols-IsCovered s [] h = absurd h
symbols-IsCovered s (t ∷ syms) (inl e) =
    subst (λ u. IsCovered u.address (symbol_intervals (t ∷ syms))) (sym e)
      (inl (
        page_span-holds t.address (t.address + max t.size 1) t.address (omega arith) (omega arith)))
symbols-IsCovered s (t ∷ syms) (inr h) = inr (symbols-IsCovered s syms h)

-- The region that holds the address.
abbrev pub IsHolder : ℕ → List Region → Region → Type 0
IsHolder x regions r = In r regions × (r.start ≤ x) × (x < r.end)

find_region-covered :
    (x : ℕ) (regions : List Region)
    → IsCovered x (map bounds regions)
    → (r : Region) × (find_region_for_address x regions ≡ some r) × IsHolder x regions r
unfolding find_region_for_address
find_region-covered x [] h = absurd h
find_region-covered x (r ∷ regions) h = elim (Bool-cases (leb r.start x && ltb x r.end)) [
  | inl on ↦
      let low : r.start ≤ x = ground arith in
      let high : x < r.end = ground arith in (r, rw on refl, (inl refl, low, high))
  | inr off ↦
      let rest : IsCovered x (map bounds regions) = ground arith in
      let (found, e, (member, low, high)) = find_region-covered x regions rest in
      (found, rw off e, (inr member, low, high))
]

-- Each symbol has the section of a region that holds it, and is otherwise as before.
abbrev pub AreAssigned : List Region → List ResolvedSymbol → List ResolvedSymbol → Type 0
AreAssigned regions [] [] = Unit
AreAssigned regions (s ∷ syms) (t ∷ syms') =
    ((r : Region) × IsHolder s.address regions r × (t ≡ record s { section_name = some r.name }))
    × AreAssigned regions syms syms'
AreAssigned regions _ _ = ⊥

assign-covered :
    (symbols : List ResolvedSymbol) (regions : List Region)
    → ((s : ResolvedSymbol) → In s symbols → IsCovered s.address (map bounds regions))
    → (symbols' : List ResolvedSymbol) × (assign_symbol_sections symbols regions ≡ ok symbols')
      × AreAssigned regions symbols symbols'
unfolding assign_symbol_sections
assign-covered [] regions h = ([], refl, tt)
assign-covered (s ∷ syms) regions h =
    let (r, found, holder) = find_region-covered s.address regions (h s (inl refl)) in
    let (syms', rest, assigned) = assign-covered syms regions (λ t m. h t (inr m)) in
    (
      record s { section_name = some r.name } ∷ syms',
      rw (found, rest) refl,
      ((r, holder, refl), assigned),
    )

-- The regions that are built from symbols cover those symbols: no symbol is left without a region, and each is
-- given the section of a region that holds its address.
pub assign_symbol_sections-build_regions :
    (symbols : List ResolvedSymbol) (base_name : Text) (extra_ranges : List Interval)
    → (symbols' : List ResolvedSymbol) × (assign_symbol_sections symbols
          (build_regions symbols base_name extra_ranges)
        ≡ ok symbols')
      × AreAssigned (build_regions symbols base_name extra_ranges) symbols symbols'
unfolding build_regions intervals
assign_symbol_sections-build_regions symbols base_name extra_ranges =
    let is = intervals symbols extra_ranges in
    assign-covered symbols (build_regions symbols base_name extra_ranges) (λ s m.
      rw (bounds-name_regions base_name (merge (sort_intervals is))) (
        (IsCovered-merge s.address is).1 (
          IsCovered-left s.address (symbol_intervals symbols) (range_intervals extra_ranges)
            (symbols-IsCovered s symbols m))))
