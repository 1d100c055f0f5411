-- ===== src/Regions.antt =====
-- make_dll/build_PIC_so.py: the regions of the text and of the read-only data. The pages that the symbols of one
-- kind and the extra ranges touch are merged into regions, each region becomes a section, and each symbol is given
-- the section of the region that it lies in.
pub mod Touched
pub mod Merging
pub mod Layout
pub mod Names
use binary_kernel_code_mappi.TextOps.{decimal}
use binary_kernel_code_mappi.Prelude.{
  ℕ, zero, suc, ◌+◌, ◌-◌, ◌*◌, ◌/◌, ◌%◌, max, Bool, true, false, ◌&&◌, ◌||◌, List, [], ◌∷◌, ◌++◌,
  map, Option, none, some, Text, length, ltb, leb, ◌==◌, if◌then◌else◌, Result, ok, err, ◌>>=◌,
  or_raise,
}
use binary_kernel_code_mappi.Align.{page_size, align, align_down}
use binary_kernel_code_mappi.Symbols.{ResolvedSymbol}

pub record Region : Type 0 where
  pub name : Text
  pub start : ℕ
  pub end : ℕ

abbrev pub Interval : Type 0
Interval = ℕ × ℕ

-- `Region.size`. A region that ends before it starts has a negative size in the code, and is outside the model; one
-- comes only from an extra range that ends before it starts, and the ranges that the tools pass do not.
unfoldable pub region_size : Region → ℕ
region_size r = r.end - r.start

-- The pages that the addresses from `first` to `last` touch; at least one page.
unfoldable pub page_span : ℕ → ℕ → Interval
page_span first last =
    let start = align_down first page_size in
    let end = align last page_size in (start, if end == start then end + page_size else end)

unfoldable pub symbol_intervals : List ResolvedSymbol → List Interval
unfolding page_span
symbol_intervals [] = []
symbol_intervals (sym ∷ syms) =
    page_span sym.address (sym.address + max sym.size 1) ∷ symbol_intervals syms

unfoldable pub range_intervals : List Interval → List Interval
unfolding page_span
range_intervals [] = []
range_intervals ((start, end) ∷ ranges) = page_span start end ∷ range_intervals ranges

-- The list `intervals` before it is sorted.
unfoldable pub intervals : List ResolvedSymbol → List Interval → List Interval
unfolding symbol_intervals range_intervals
intervals symbols extra_ranges = symbol_intervals symbols ++ range_intervals extra_ranges

-- The order of Python's tuples.
unfoldable pub tuple_le : Interval → Interval → Bool
tuple_le (a, b) (c, d) = ltb a c || (a == c && leb b d)

unfoldable pub insert_interval : Interval → List Interval → List Interval
unfolding tuple_le
insert_interval i [] = i ∷ []
insert_interval i (j ∷ js) = if tuple_le i j then i ∷ j ∷ js else j ∷ insert_interval i js

-- `intervals.sort()`
unfoldable pub sort_intervals : List Interval → List Interval
unfolding insert_interval
sort_intervals [] = []
sort_intervals (i ∷ is) = insert_interval i (sort_intervals is)

-- The loop that merges; the first two arguments are the bounds `merged[-1]`.
unfoldable pub merge_from : ℕ → ℕ → List Interval → List Interval
merge_from s e [] = (s, e) ∷ []
merge_from s e ((start, end) ∷ rest) =
    let apart = merge_from start end rest in
    let joined = merge_from s (max e end) rest in if ltb e start then (s, e) ∷ apart else joined

unfoldable pub merge : List Interval → List Interval
unfolding merge_from
merge [] = []
merge ((start, end) ∷ rest) = merge_from start end rest

-- `f"{base_name}{idx + 1}"` for each interval, from the index `idx` on.
unfoldable pub numbered_regions : Text → ℕ → List Interval → List Region
unfolding decimal
numbered_regions base_name idx [] = []
numbered_regions base_name idx ((start, end) ∷ merged) =
    record { name = base_name ++ decimal (idx + 1); start = start; end = end }
    ∷ numbered_regions base_name (idx + 1) merged

unfoldable pub name_regions : Text → List Interval → List Region
unfolding numbered_regions
name_regions base_name ((start, end) ∷ []) =
    record { name = base_name; start = start; end = end } ∷ []
name_regions base_name merged = numbered_regions base_name 0 merged

unfoldable pub build_regions : List ResolvedSymbol → Text → List Interval → List Region
unfolding intervals sort_intervals merge name_regions
build_regions symbols base_name extra_ranges =
    name_regions base_name (merge (sort_intervals (intervals symbols extra_ranges)))

unfoldable pub find_region_for_address : ℕ → List Region → Option Region
find_region_for_address address [] = none
find_region_for_address address (region ∷ regions) =
    if leb region.start address && ltb address region.end
    then some region
    else find_region_for_address address regions

pub data RegionError : Type 0 where
  no_region_covers : Text → RegionError

-- The symbols with their sections.
unfoldable pub assign_symbol_sections :
    List ResolvedSymbol → List Region → Result RegionError (List ResolvedSymbol)
unfolding find_region_for_address
assign_symbol_sections [] regions = ok []
assign_symbol_sections (sym ∷ syms) regions = do
  region ← or_raise (no_region_covers sym.name) (find_region_for_address sym.address regions)
  rest ← assign_symbol_sections syms regions
  ok (record sym { section_name = some region.name } ∷ rest)
