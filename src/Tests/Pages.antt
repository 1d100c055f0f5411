-- ===== src/Tests/Pages.antt =====
-- A page with one retpoline thunk.
use binary_kernel_code_mappi.Prelude.{
  ℕ, ◌≡◌, ◌↔◌, refl, true, List, [], ◌∷◌, Text, All, map, codes, replicate, ok, text_eq,
  starts_with, lookup, contains,
}
use binary_kernel_code_mappi.Align.{align_down}
use binary_kernel_code_mappi.Symbols.{ResolvedSymbol, resolved_symbol, stt_func}
use binary_kernel_code_mappi.Thunks.{
  PageBytes, registers_of, has_page, is_synthetic, thunk_code, indirect_thunk_register, write_page,
  place, mark, build_builtin_thunk_pages,
}
use binary_kernel_code_mappi.Thunks.Writes.{IsPage}
use binary_kernel_code_mappi.Thunks.Placing.{marked, HasThunk}
use binary_kernel_code_mappi.Thunks.Code.{Holds}
use binary_kernel_code_mappi.Thunks.Pages.{
  HasSelected, build_builtin_thunk_pages_correct, build_builtin_thunk_pages_code,
}

abbrev thunk : ResolvedSymbol
thunk = record (resolved_symbol (codes "__x86_indirect_thunk_r8") (codes "local") true stt_func) {
  address = 0x2020;
}

abbrev enabled : List Text
enabled = codes "__x86_indirect_thunk_r8" ∷ []

abbrev one_page : PageBytes
one_page = write_page ((0x2000, replicate 4096 0xcc) ∷ []) 0x2000 0x20 (0x41 ∷ 0xff ∷ 0xe0 ∷ [])

build_run : build_builtin_thunk_pages (thunk ∷ []) enabled ≡ ok (one_page, mark thunk ∷ [])
unfolding build_builtin_thunk_pages indirect_thunk_register text_eq starts_with lookup contains
    place is_synthetic align_down thunk_code
build_run = refl

build_builtin_thunk_pages_correct_example :
    All IsPage one_page
    × ((a : ℕ) → (has_page one_page a ≡ true) ↔ HasSelected (registers_of enabled) a (thunk ∷ []))
    × (mark thunk ∷ [] ≡ map (marked one_page) (thunk ∷ []))
    × All (λ s. is_synthetic one_page s ≡ true → HasThunk (registers_of enabled) s) (thunk ∷ [])
build_builtin_thunk_pages_correct_example =
    build_builtin_thunk_pages_correct (thunk ∷ []) enabled one_page (mark thunk ∷ []) build_run

on_page : is_synthetic one_page thunk ≡ true
unfolding is_synthetic write_page has_page align_down
on_page = refl

thunk_bytes : thunk_code (registers_of enabled) thunk.name ≡ ok (0x41 ∷ 0xff ∷ 0xe0 ∷ [])
unfolding thunk_code registers_of indirect_thunk_register text_eq starts_with lookup contains
thunk_bytes = refl

build_builtin_thunk_pages_code_example : Holds one_page thunk (0x41 ∷ 0xff ∷ 0xe0 ∷ [])
build_builtin_thunk_pages_code_example =
    build_builtin_thunk_pages_code [] [] thunk enabled one_page (mark thunk ∷ [])
      (0x41 ∷ 0xff ∷ 0xe0 ∷ []) build_run on_page thunk_bytes tt
