-- ===== src/Placement/Mappings.antt =====
-- What the page map holds.
use mathlib.Core.Path.{subst}
use binary_kernel_code_mappi.Prelude.{
  ℕ, zero, suc, ◌+◌, ◌-◌, ◌/◌, ◌≡◌, ◌≢◌, inl, inr, false, List, [], ◌∷◌, ◌++◌, Text, All,
  All-append, Bool-cases, codes, ok, >>=-eq-ok, arith,
}
use binary_kernel_code_mappi.Align.{page_size}
use binary_kernel_code_mappi.Regions.{Region, region_size}
use binary_kernel_code_mappi.Thunks.{PageBytes, has_page}
use binary_kernel_code_mappi.Placement.{
  Place, Placed, Mapping, has_file_page, has_kernel_page, map_page, map_pages, map_sections,
  reusable_page_mappings,
}

abbrev IsOther : Mapping → Mapping → Type 0
IsOther m n = (n.file_offset ≢ m.file_offset) × (n.kernel_vaddr ≢ m.kernel_vaddr)

-- No page of the file and no page of the kernel stands twice.
abbrev pub IsOneToOne : List Mapping → Type 0
IsOneToOne [] = Unit
IsOneToOne (m ∷ ms) = All (IsOther m) ms × IsOneToOne ms

-- No page of the kernel is one of the pages that the file brings itself.
abbrev pub IsReusable : PageBytes → Mapping → Type 0
IsReusable synthetic m = has_page synthetic m.kernel_vaddr ≡ false

abbrev IsMap : PageBytes → List Mapping → Type 0
IsMap synthetic ms = IsOneToOne ms × All (IsReusable synthetic) ms

IsOneToOne-append :
    (ms : List Mapping) (m : Mapping)
    → IsOneToOne ms
    → has_file_page m.file_offset ms ≡ false
    → has_kernel_page m.kernel_vaddr ms ≡ false
    → IsOneToOne (ms ++ m ∷ [])
unfolding has_file_page has_kernel_page
IsOneToOne-append [] m h f k = (tt, tt)
IsOneToOne-append (n ∷ ms) m (h, hs) f k =
    let other : IsOther n m = ground arith in
    (
      All-append (IsOther n) ms (m ∷ []) h (other, tt),
      IsOneToOne-append ms m hs (ground arith) (ground arith),
    )

map_page-IsMap :
    (synthetic : PageBytes) (m : Mapping) (ms ms' : List Mapping)
    → IsMap synthetic ms
    → map_page synthetic m ms ≡ ok ms'
    → IsMap synthetic ms'
unfolding map_page
map_page-IsMap synthetic m ms ms' (h, r) e = elim (Bool-cases (has_page synthetic m.kernel_vaddr)) [
  | inl own ↦
      let same : ms ≡ ms' = let z = rw (own, map_page) at e in cc in
      subst (IsMap synthetic) same (h, r)
  | inr other ↦ elim (Bool-cases (has_file_page m.file_offset ms)) [
    | inl twice ↦ absurd (let z = rw (other, map_page, twice) at e in cc)
    | inr file ↦ elim (Bool-cases (has_kernel_page m.kernel_vaddr ms)) [
      | inl twice ↦ absurd (let z = rw (other, map_page, file, twice) at e in cc)
      | inr page ↦
          let same : ms ++ m ∷ [] ≡ ms' = let z = rw (other, map_page, file, page) at e in cc in
          subst (IsMap synthetic) same (
            IsOneToOne-append ms m h file page,
            All-append (IsReusable synthetic) ms (m ∷ []) r (other, tt),
          )
    ]
  ]
]

map_pages-IsMap :
    (synthetic : PageBytes) (kind : Text) (place : Place) (start relative count : ℕ)
    (ms ms' : List Mapping)
    → IsMap synthetic ms
    → map_pages synthetic kind place start relative count ms ≡ ok ms'
    → IsMap synthetic ms'
unfolding map_pages
map_pages-IsMap synthetic kind place start relative zero ms ms' h e =
    let same : ms ≡ ms' = cc in subst (IsMap synthetic) same h
map_pages-IsMap synthetic kind place start relative (suc count) ms ms' h e =
    let (next, first, rest) = >>=-eq-ok (map_page synthetic _ ms) _ e in
    map_pages-IsMap synthetic kind place start (relative + page_size) count next ms'
      (map_page-IsMap synthetic _ ms next h first) rest

abbrev pages_of : Region → ℕ
pages_of r = (region_size r + (page_size - 1)) / page_size

map_sections-IsMap :
    (synthetic : PageBytes) (kind : Text) (places : List Place) (regions : List Region)
    (ms ms' : List Mapping)
    → IsMap synthetic ms
    → map_sections synthetic kind places regions ms ≡ ok ms'
    → IsMap synthetic ms'
unfolding map_sections
map_sections-IsMap synthetic kind [] regions ms ms' h e =
    let same : ms ≡ ms' = cc in subst (IsMap synthetic) same h
map_sections-IsMap synthetic kind (p ∷ ps) [] ms ms' h e =
    let same : ms ≡ ms' = cc in subst (IsMap synthetic) same h
map_sections-IsMap synthetic kind (p ∷ ps) (r ∷ rs) ms ms' h e =
    let (next, first, rest) =
      >>=-eq-ok (map_pages synthetic kind p r.start 0 (pages_of r) ms) _ e in
    map_sections-IsMap synthetic kind ps rs next ms'
      (map_pages-IsMap synthetic kind p r.start 0 (pages_of r) ms next h first) rest

-- Where a page map is returned, no page of the file and no page of the kernel stands in it twice, and no page that
-- the file brings itself.
pub reusable_page_mappings-IsOneToOne :
    (synthetic : PageBytes) (placed : Placed) (text_regions ro_regions : List Region)
    (ms : List Mapping)
    → reusable_page_mappings synthetic placed text_regions ro_regions ≡ ok ms
    → IsOneToOne ms × All (IsReusable synthetic) ms
unfolding reusable_page_mappings
reusable_page_mappings-IsOneToOne synthetic placed text ro ms e =
    let (next, first, rest) =
      >>=-eq-ok (map_sections synthetic (codes "text") placed.text text []) _ e in
    map_sections-IsMap synthetic (codes "rodata") placed.rodata ro next ms
      (map_sections-IsMap synthetic (codes "text") placed.text text [] next (tt, tt) first) rest
