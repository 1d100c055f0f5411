-- ===== src/Placement.antt =====
-- make_dll/build_PIC_so.py: `_assign_offsets_and_addresses`, where each section gets its place in the file and in
-- memory, and `reusable_page_mappings`, which pairs the pages of the file with the pages of the kernel.
pub mod Layout
pub mod Mappings
use binary_kernel_code_mappi.Prelude.{
  ℕ, zero, suc, ◌+◌, ◌-◌, ◌*◌, ◌/◌, max, Bool, true, false, List, [], ◌∷◌, ◌++◌, Option, none, some,
  Text, Dict, codes, ◌==◌, ltb, if◌then◌else◌, Result, ok, err, ◌>>=◌, ◌>>◌, raise_if,
}
use binary_kernel_code_mappi.Prelude.Int.{ℤ, pos, negsuc, sub_ℕ}
use binary_kernel_code_mappi.Align.{page_size, align}
use binary_kernel_code_mappi.Regions.{Region, region_size}
use binary_kernel_code_mappi.Thunks.{PageBytes, has_page}

abbrev pub text_base_vaddr : ℕ
text_base_vaddr = 0x1000

abbrev pub text_base_offset : ℕ
text_base_offset = 0x1000

-- A section with the place that it is given.
pub record Place : Type 0 where
  pub name : Text
  pub offset : ℕ
  pub addr : ℤ
  pub size : ℕ

-- `max(a, b)`, where `a` is not negative.
unfoldable pub max_end : ℕ → ℤ → ℕ
max_end a (pos b) = max a b
max_end a (negsuc b) = a

unfoldable pub add_size : ℤ → ℕ → ℤ
add_size (pos a) size = pos (a + size)
add_size (negsuc a) size = sub_ℕ size (suc a)

-- `TEXT_BASE_VADDR + (region.start - self.text_min_page)`
unfoldable pub region_addr : ℕ → Region → ℤ
region_addr text_min_page region = sub_ℕ (text_base_vaddr + region.start) text_min_page

unfoldable pub place_region : ℕ → ℕ → Region → Place
unfolding region_addr region_size
place_region text_min_page offset region = record {
  name = region.name;
  offset = offset;
  addr = region_addr text_min_page region;
  size = region_size region;
}

-- A loop over the sections of regions from the cursor on: the places, `current_offset` and the end address.
unfoldable pub place_regions : ℕ → ℕ → ℕ → List Region → List Place × ℕ × ℕ
unfolding place_region max_end add_size
place_regions text_min_page current_offset end_addr [] = ([], current_offset, end_addr)
place_regions text_min_page current_offset end_addr (region ∷ regions) =
    let place = place_region text_min_page (align current_offset page_size) region in
    let (places, offset, last) =
      place_regions text_min_page (place.offset + place.size)
        (max_end end_addr (add_size place.addr place.size)) regions in
    (place ∷ places, offset, last)

-- The loop over `text_section_names`: the first section stands at `TEXT_BASE_OFFSET`.
unfoldable pub place_text : ℕ → List Region → List Place × ℕ × ℕ
unfolding place_region place_regions max_end add_size
place_text text_min_page [] = ([], text_base_offset, text_base_vaddr)
place_text text_min_page (region ∷ regions) =
    let place = place_region text_min_page text_base_offset region in
    let (places, offset, last) =
      place_regions text_min_page (place.offset + place.size)
        (max_end text_base_vaddr (add_size place.addr place.size)) regions in
    (place ∷ places, offset, last)

-- A section that no region belongs to: its name, its alignment and its size.
pub record Content : Type 0 where
  pub name : Text
  pub alignment : ℕ
  pub content_size : ℕ

-- The loop over `rw_sections`: the places, and the two cursors behind the last.
unfoldable pub place_rw : ℕ → ℕ → List Content → List Place × ℕ × ℕ
place_rw cursor_offset cursor_addr [] = ([], cursor_offset, cursor_addr)
place_rw cursor_offset cursor_addr (s ∷ ss) =
    let offset = align cursor_offset (max 1 s.alignment) in
    let addr = align cursor_addr (max 1 s.alignment) in
    let (places, file_end, mem_end) =
      place_rw (offset + s.content_size) (addr + s.content_size) ss in
    (
      record { name = s.name; offset = offset; addr = pos addr; size = s.content_size } ∷ places,
      file_end,
      mem_end,
    )

-- The loop over the sections without an address.
unfoldable pub place_rest : ℕ → List Content → List Place × ℕ
place_rest cursor [] = ([], cursor)
place_rest cursor (s ∷ ss) =
    let offset = align cursor (max 1 s.alignment) in
    let (places, last) = place_rest (offset + s.content_size) ss in
    (record { name = s.name; offset = offset; addr = pos 0; size = s.content_size } ∷ places, last)

-- Where the writable segment starts: its first section, or 0 where there is none.
unfoldable pub rw_start : List Place → ℕ × ℤ
rw_start [] = (0, pos 0)
rw_start (p ∷ ps) = (p.offset, p.addr)

unfoldable pub base_or : Option ℕ → ℕ → ℕ
base_or none d = d
base_or (some base) d = align base page_size

pub record Placed : Type 0 where
  pub text : List Place
  pub rodata : List Place
  pub rw : List Place
  pub rest : List Place
  pub rw_segment_start : ℕ × ℤ
  pub rw_segment_file_end : ℕ
  pub rw_segment_mem_end : ℕ
  pub section_headers_offset : ℕ

-- `rw_sections` and the sections without an address are the arguments, in the section order.
unfoldable pub assign_offsets_and_addresses :
    ℕ → Option ℕ → List Region → List Region → List Content → List Content → Placed
unfolding place_text place_regions place_rw place_rest rw_start base_or
assign_offsets_and_addresses text_min_page rw_base_vaddr text_regions ro_regions rw_sections
      rest_sections =
    let (text, offset, text_end) = place_text text_min_page text_regions in
    let (rodata, offset', last_alloc) = place_regions text_min_page offset text_end ro_regions in
    let cursor_offset = align offset' page_size in
    let cursor_addr = base_or rw_base_vaddr (align last_alloc page_size) in
    let (rw, file_end, mem_end) = place_rw cursor_offset cursor_addr rw_sections in
    let (rest, last) = place_rest file_end rest_sections in
    record {
      text = text;
      rodata = rodata;
      rw = rw;
      rest = rest;
      rw_segment_start = rw_start rw;
      rw_segment_file_end = file_end;
      rw_segment_mem_end = mem_end;
      section_headers_offset = align last 8;
    }

-- A page of the file and the page of the kernel that replaces it; `kind` is text or rodata.
pub record Mapping : Type 0 where
  pub file_offset : ℕ
  pub kernel_vaddr : ℕ
  pub kind : Text
  pub section : Text

pub data MappingError : Type 0 where
  duplicate_file_page duplicate_kernel_page : ℕ → MappingError

has_file_page : ℕ → List Mapping → Bool
has_file_page offset [] = false
has_file_page offset (m ∷ ms) = if m.file_offset == offset then true else has_file_page offset ms

has_kernel_page : ℕ → List Mapping → Bool
has_kernel_page vaddr [] = false
has_kernel_page vaddr (m ∷ ms) = if m.kernel_vaddr == vaddr then true else has_kernel_page vaddr ms

-- One page, after those mapped so far, which are also what the two sets hold.
unfoldable pub map_page : PageBytes → Mapping → List Mapping → Result MappingError (List Mapping)
unfolding has_file_page has_kernel_page
map_page synthetic m ms = if has_page synthetic m.kernel_vaddr then ok ms else (do
  raise_if (has_file_page m.file_offset ms) (duplicate_file_page m.file_offset)
  raise_if (has_kernel_page m.kernel_vaddr ms) (duplicate_kernel_page m.kernel_vaddr)
  ok (ms ++ m ∷ []))

-- The pages of one section, from `relative` on; `count` is the number of pages left.
unfoldable pub map_pages :
    PageBytes → Text → Place → ℕ → ℕ → ℕ → List Mapping → Result MappingError (List Mapping)
unfolding map_page
map_pages synthetic kind place start relative zero ms = ok ms
map_pages synthetic kind place start relative (suc count) ms = do
  ms' ←
      map_page synthetic
        (record {
          file_offset = place.offset + relative;
          kernel_vaddr = start + relative;
          kind = kind;
          section = place.name;
        })
        ms
  map_pages synthetic kind place start (relative + page_size) count ms'

-- The sections of one kind, each with its region; `range(0, size, PAGE_SIZE)` rounds the number of pages up.
unfoldable pub map_sections :
    PageBytes → Text → List Place → List Region → List Mapping → Result MappingError (List Mapping)
unfolding map_pages region_size
map_sections synthetic kind (place ∷ places) (region ∷ regions) ms = do
  ms' ←
      map_pages synthetic kind place region.start 0
        ((region_size region + (page_size - 1)) / page_size) ms
  map_sections synthetic kind places regions ms'
map_sections synthetic kind _ _ ms = ok ms

unfoldable pub reusable_page_mappings :
    PageBytes → Placed → List Region → List Region → Result MappingError (List Mapping)
unfolding map_sections
reusable_page_mappings synthetic placed text_regions ro_regions = do
  ms ← map_sections synthetic (codes "text") placed.text text_regions []
  map_sections synthetic (codes "rodata") placed.rodata ro_regions ms
