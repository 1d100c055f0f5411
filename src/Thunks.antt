-- ===== src/Thunks.antt =====
-- make_dll/build_PIC_so.py: the built-in user-space thunks. A page of the text that holds retpoline thunks is
-- synthesised: breakpoints, and at each thunk's offset a jump to its register or a return.
pub mod Writes
pub mod Placing
pub mod Code
pub mod Pages
use binary_kernel_code_mappi.Prelude.{
  ℕ, zero, suc, ◌+◌, ◌-◌, Bool, true, false, not, ◌&&◌, ◌||◌, List, [], ◌∷◌, ◌++◌, Option, none,
  some, Bytes, Text, Dict, length, take, drop, replicate, codes, text_eq, starts_with, contains,
  lookup, ltb, ◌==◌, if◌then◌else◌, Result, ok, err, ◌>>=◌, ◌>>◌, raise_if, or_raise, select,
}
use binary_kernel_code_mappi.Align.{page_size, align_down}
use binary_kernel_code_mappi.Symbols.{ResolvedSymbol}

abbrev pub builtin_thunk_module : Text
builtin_thunk_module = codes "builtin_thunk"

abbrev pub indirect_thunk_prefix : Text
indirect_thunk_prefix = codes "__x86_indirect_thunk_"

abbrev pub indirect_thunk_array : Text
indirect_thunk_array = codes "__x86_indirect_thunk_array"

abbrev pub return_thunk_prefix : Text
return_thunk_prefix = codes "__x86_return_thunk"

-- `jmp *%reg`; the stack pointer is left out.
abbrev pub direct_thunk_encodings : Dict Bytes
direct_thunk_encodings =
    (codes "rax", 0xff ∷ 0xe0 ∷ [])
    ∷ (codes "rcx", 0xff ∷ 0xe1 ∷ [])
    ∷ (codes "rdx", 0xff ∷ 0xe2 ∷ [])
    ∷ (codes "rbx", 0xff ∷ 0xe3 ∷ [])
    ∷ (codes "rbp", 0xff ∷ 0xe5 ∷ [])
    ∷ (codes "rsi", 0xff ∷ 0xe6 ∷ [])
    ∷ (codes "rdi", 0xff ∷ 0xe7 ∷ [])
    ∷ (codes "r8", 0x41 ∷ 0xff ∷ 0xe0 ∷ [])
    ∷ (codes "r9", 0x41 ∷ 0xff ∷ 0xe1 ∷ [])
    ∷ (codes "r10", 0x41 ∷ 0xff ∷ 0xe2 ∷ [])
    ∷ (codes "r11", 0x41 ∷ 0xff ∷ 0xe3 ∷ [])
    ∷ (codes "r12", 0x41 ∷ 0xff ∷ 0xe4 ∷ [])
    ∷ (codes "r13", 0x41 ∷ 0xff ∷ 0xe5 ∷ [])
    ∷ (codes "r14", 0x41 ∷ 0xff ∷ 0xe6 ∷ [])
    ∷ (codes "r15", 0x41 ∷ 0xff ∷ 0xe7 ∷ [])
    ∷ []

known_register : Text → Option Text
known_register register = elim (lookup register direct_thunk_encodings) [
  | none ↦ none
  | some code ↦ some register
]

unfoldable pub indirect_thunk_register : Text → Option Text
unfolding known_register
indirect_thunk_register name =
    if text_eq name indirect_thunk_array
    then some (codes "rax")
    else if not (starts_with name indirect_thunk_prefix)
    then none
    else known_register (drop (length indirect_thunk_prefix) name)

-- `shim_symbols` in two: the names that no register belongs to, and the built-in thunks.
unfoldable pub split_builtin_thunk_shims : List Text → List Text × List Text
unfolding indirect_thunk_register
split_builtin_thunk_shims [] = ([], [])
split_builtin_thunk_shims (name ∷ names) =
    let (regular, builtin) = split_builtin_thunk_shims names in
    elim (indirect_thunk_register name) [
      | none ↦ (name ∷ regular, builtin)
      | some r ↦ (regular, name ∷ builtin)
    ]

pub data ThunkError : Type 0 where
  non_thunk_shares_page not_enabled crosses_page key_error : Text → ThunkError

abbrev pub PageBytes : Type 0
PageBytes = List (ℕ × Bytes)

-- The registers of the names that `shim.txt` enables.
unfoldable pub registers_of : List Text → List Text
registers_of [] = []
registers_of (name ∷ names) = elim (indirect_thunk_register name) [
  | none ↦ registers_of names
  | some r ↦ r ∷ registers_of names
]

-- `register in configured_registers`, where `None` is in no set of names.
is_configured : List Text → Option Text → Bool
is_configured configured none = false
is_configured configured (some r) = contains configured r

unfoldable pub is_selected : List Text → ResolvedSymbol → Bool
unfolding is_configured
is_selected configured sym =
    sym.defined && is_configured configured (indirect_thunk_register sym.name)

unfoldable pub has_page : PageBytes → ℕ → Bool
has_page [] a = false
has_page ((page, bytes) ∷ pages) a = (page == a) || has_page pages a

-- One page of breakpoints for each page address of a selected symbol.
unfoldable pub blank_pages : List Text → List ResolvedSymbol → PageBytes
unfolding is_selected has_page
blank_pages configured [] = []
blank_pages configured (sym ∷ syms) =
    let pages = blank_pages configured syms in
    let page = align_down sym.address page_size in
    if is_selected configured sym && not (has_page pages page)
    then (page, replicate page_size 0xcc) ∷ pages
    else pages

-- `data[off : off + len(code)] = code`
unfoldable pub write_at : Bytes → ℕ → Bytes → Bytes
write_at bytes off code = take off bytes ++ (code ++ drop (off + length code) bytes)

unfoldable pub write_page : PageBytes → ℕ → ℕ → Bytes → PageBytes
unfolding write_at
write_page [] a off code = []
write_page ((page, bytes) ∷ pages) a off code =
    if page == a
    then (page, write_at bytes off code) ∷ pages
    else (page, bytes) ∷ write_page pages a off code

is_none : Option Text → Bool
is_none none = true
is_none (some r) = false

-- `DIRECT_THUNK_ENCODINGS[register]`
encoding : Text → Option Text → Result ThunkError Bytes
encoding name none = err (key_error name)
encoding name (some r) = or_raise (key_error name) (lookup r direct_thunk_encodings)

-- The code for a symbol on a synthetic page, or the reason why there is none.
unfoldable pub thunk_code : List Text → Text → Result ThunkError Bytes
unfolding is_configured is_none encoding
thunk_code configured name = do
  let register = indirect_thunk_register name
  let is_return_thunk = starts_with name return_thunk_prefix
  raise_if (is_none register && not is_return_thunk) (non_thunk_shares_page name)
  raise_if (not (is_none register) && not (is_configured configured register)) (not_enabled name)
  if is_return_thunk then ok (0xc3 ∷ []) else encoding name register

-- `page in synthetic_page_addrs`, where an undefined symbol or one without an address has no page.
unfoldable pub is_synthetic : PageBytes → ResolvedSymbol → Bool
is_synthetic pages sym =
    sym.defined && not (sym.address == 0) && has_page pages (align_down sym.address page_size)

unfoldable pub mark : ResolvedSymbol → ResolvedSymbol
mark sym = record sym {
  module_name = builtin_thunk_module;
  source = builtin_thunk_module;
  replace_from_kernel = false;
}

-- The body of the loop over the symbols.
unfoldable pub place :
    List Text → PageBytes → ResolvedSymbol → Result ThunkError (PageBytes × ResolvedSymbol)
place configured pages sym = if not (is_synthetic pages sym) then ok (pages, sym) else (do
  code ← thunk_code configured sym.name
  let page = align_down sym.address page_size
  let offset = sym.address - page
  raise_if (ltb page_size (offset + length code)) (crosses_page sym.name)
  ok (write_page pages page offset code, mark sym))

unfoldable pub place_all :
    List Text
    → PageBytes
    → List ResolvedSymbol
    → Result ThunkError (PageBytes × List ResolvedSymbol)
place_all configured pages [] = ok (pages, [])
place_all configured pages (sym ∷ syms) = do
  (pages', sym') ← place configured pages sym
  (pages'', syms') ← place_all configured pages' syms
  ok (pages'', sym' ∷ syms')

-- The pages, and the symbols with those on a page marked.
unfoldable pub build_builtin_thunk_pages :
    List ResolvedSymbol → List Text → Result ThunkError (PageBytes × List ResolvedSymbol)
unfolding place_all blank_pages registers_of
build_builtin_thunk_pages symbols configured_thunks =
    let configured = registers_of configured_thunks in
    elim (select (is_selected configured) symbols) [
      | [] ↦ ok ([], symbols)
      | _ ∷ _ ↦ place_all configured (blank_pages configured symbols) symbols
    ]
