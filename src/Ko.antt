-- ===== src/Ko.antt =====
-- make_dll/build_PIC_so.py, class `KoFile`: the reader of a kernel module, an ELF64 relocatable file.
pub mod CoreLayout
pub mod Placing
use Prim.Native.Nat.{bit_and}
use binary_kernel_code_mappi.Prelude.{
  ℕ, zero, suc, ◌+◌, ◌-◌, ◌*◌, ◌/◌, ◌%◌, Bool, true, false, not, ◌&&◌, ◌||◌, List, [], ◌∷◌, ◌++◌,
  Option, none, some, Bytes, Text, Dict, codes, length, get_elem?, drop, lookup, insert,
  starts_with, text_eq, ltb, leb, ◌==◌, if◌then◌else◌, Result, ok, err, ◌>>=◌, ◌>>◌, raise_if,
  or_raise,
}
use binary_kernel_code_mappi.Words.{field, slice, until_nul}
use binary_kernel_code_mappi.Words.Utf8.{decode}

pub record KoSection : Type 0 where
  pub index : ℕ
  pub name : Text
  pub sh_type : ℕ
  pub sh_flags : ℕ
  pub sh_offset : ℕ
  pub sh_size : ℕ
  pub sh_link : ℕ
  pub sh_info : ℕ
  pub sh_addralign : ℕ
  pub sh_entsize : ℕ

-- `bool(self.sh_flags & flag)`; the flags are SHF_WRITE 1, SHF_ALLOC 2 and SHF_EXECINSTR 4.
unfoldable pub has_flag : ℕ → KoSection → Bool
has_flag flag sec = not (bit_and sec.sh_flags flag == 0)

abbrev pub is_alloc : KoSection → Bool
is_alloc = has_flag 2

abbrev pub is_write : KoSection → Bool
is_write = has_flag 1

abbrev pub is_exec : KoSection → Bool
is_exec = has_flag 4

pub record KoSymbol : Type 0 where
  pub name : Text
  pub st_info : ℕ
  pub st_other : ℕ
  pub st_shndx : ℕ
  pub st_value : ℕ
  pub st_size : ℕ

unfoldable pub symbol_bind : KoSymbol → ℕ
symbol_bind sym = sym.st_info / 16

unfoldable pub symbol_type : KoSymbol → ℕ
symbol_type sym = sym.st_info % 16

unfoldable pub is_undef : KoSymbol → Bool
is_undef sym = sym.st_shndx == 0

pub record KoFile : Type 0 where
  pub blob : Bytes
  pub sections : List KoSection
  pub sections_by_name : Dict KoSection
  pub symbols : List KoSymbol
  pub sym_by_name : Dict ℕ

-- The `ValueError`s, and `struct_error` for a symbol that the file cuts off.
pub data KoError : Type 0 where
  too_small_for_header not_elf64 expected_et_rel expected_x86_64 unexpected_header_size : KoError
  missing_section_table truncated_section_table invalid_shstrndx truncated_shstrtab : KoError
  missing_symtab invalid_sh_link truncated_strtab truncated_symtab struct_error : KoError
  truncated_section unexpected_rela_entsize truncated_relocations : Text → KoError

pub record SectionHeader : Type 0 where
  pub name_offset : ℕ
  pub section : KoSection

-- `<IIQQQQIIQQ`; the name is filled in later.
unfoldable pub read_section_header : Bytes → ℕ → ℕ → SectionHeader
read_section_header blob idx off = record {
  name_offset = field blob off 4;
  section = record {
    index = idx;
    name = [];
    sh_type = field blob (off + 4) 4;
    sh_flags = field blob (off + 8) 8;
    sh_offset = field blob (off + 24) 8;
    sh_size = field blob (off + 32) 8;
    sh_link = field blob (off + 40) 4;
    sh_info = field blob (off + 44) 4;
    sh_addralign = field blob (off + 48) 8;
    sh_entsize = field blob (off + 56) 8;
  };
}

-- The section headers from `idx` on; `count` of them are left.
unfoldable pub read_section_headers : Bytes → ℕ → ℕ → ℕ → Result KoError (List SectionHeader)
unfolding read_section_header
read_section_headers blob shoff idx zero = ok []
read_section_headers blob shoff idx (suc count) = do
  raise_if (ltb (length blob) (shoff + idx * 64 + 64)) truncated_section_table
  rest ← read_section_headers blob shoff (suc idx) count
  ok (read_section_header blob idx (shoff + idx * 64) ∷ rest)

-- Where the tables of the file are, after the checks of the ELF header, in their order.
pub record ElfHeader : Type 0 where
  pub e_shoff : ℕ
  pub e_shnum : ℕ
  pub e_shstrndx : ℕ

unfoldable pub read_elf_header : Bytes → Result KoError ElfHeader
read_elf_header blob = do
  raise_if (ltb (length blob) 64) too_small_for_header
  raise_if (not (text_eq (slice blob 0 4) (0x7f ∷ b'E' ∷ b'L' ∷ b'F' ∷ []) && field blob 4 1 == 2))
      not_elf64
  raise_if (not (field blob 16 2 == 1)) expected_et_rel
  raise_if (not (field blob 18 2 == 62)) expected_x86_64
  raise_if (not (field blob 58 2 == 64)) unexpected_header_size
  raise_if (field blob 40 8 == 0 || field blob 60 2 == 0) missing_section_table
  ok (record { e_shoff = field blob 40 8; e_shnum = field blob 60 2; e_shstrndx = field blob 62 2 })

text_or_empty : Option Bytes → Text
text_or_empty none = []
text_or_empty (some s) = decode s

-- The string at an offset of a string table; the empty text where there is none.
unfoldable pub name_at : Bytes → ℕ → Text
unfolding text_or_empty
name_at strings off =
    if ltb off (length strings) then text_or_empty (until_nul (drop off strings)) else []

unfoldable pub name_sections : Bytes → List SectionHeader → List KoSection
unfolding name_at
name_sections strings [] = []
name_sections strings (h ∷ hs) =
    record h.section { name = name_at strings h.name_offset } ∷ name_sections strings hs

-- `if name and name not in d: d[name] = value`
unfoldable pub add_first {ℓ} : {V : Type ℓ} → Text → V → Dict V → Dict V
add_first [] v d = d
add_first (c ∷ name) v d = elim (lookup (c ∷ name) d) [ some w ↦ d | none ↦ insert (c ∷ name) v d ]

unfoldable pub index_by_name : List KoSection → Dict KoSection → Dict KoSection
unfolding add_first
index_by_name [] d = d
index_by_name (s ∷ ss) d = index_by_name ss (add_first s.name s d)

-- The content of a section, or the error for a file that ends in it.
unfoldable pub content : KoError → Bytes → KoSection → Result KoError Bytes
content e blob sec = do
  raise_if (ltb (length blob) (sec.sh_offset + sec.sh_size)) e
  ok (slice blob sec.sh_offset sec.sh_size)

-- `<IBBHQQ`
unfoldable pub read_symbol : Bytes → Bytes → ℕ → KoSymbol
unfolding name_at
read_symbol strings blob off = record {
  name = name_at strings (field blob off 4);
  st_info = field blob (off + 4) 1;
  st_other = field blob (off + 5) 1;
  st_shndx = field blob (off + 6) 2;
  st_value = field blob (off + 8) 8;
  st_size = field blob (off + 16) 8;
}

unfoldable pub read_symbols : Bytes → Bytes → ℕ → ℕ → Result KoError (List KoSymbol)
unfolding read_symbol
read_symbols strings blob off zero = ok []
read_symbols strings blob off (suc count) = do
  raise_if (ltb (length blob) (off + 24)) struct_error
  rest ← read_symbols strings blob (off + 24) count
  ok (read_symbol strings blob off ∷ rest)

unfoldable pub index_symbols : ℕ → List KoSymbol → Dict ℕ → Dict ℕ
unfolding add_first
index_symbols idx [] d = d
index_symbols idx (s ∷ ss) d = index_symbols (suc idx) ss (add_first s.name idx d)

-- The number of steps of `range(first, first + size, 24)`.
abbrev pub step_count : ℕ → ℕ
step_count size = (size + 23) / 24

-- The symbol table of the named sections.
unfoldable pub load_symbols :
    Bytes → List KoSection → Dict KoSection → Result KoError (List KoSymbol)
unfolding content read_symbols
load_symbols blob sections by_name = do
  symtab ← or_raise missing_symtab (lookup (codes ".symtab") by_name)
  raise_if (not (symtab.sh_entsize == 24)) missing_symtab
  strtab ← or_raise invalid_sh_link (get_elem? sections symtab.sh_link)
  strings ← content truncated_strtab blob strtab
  raise_if (ltb (length blob) (symtab.sh_offset + symtab.sh_size)) truncated_symtab
  read_symbols strings blob symtab.sh_offset (step_count symtab.sh_size)

unfoldable pub load_ko : Bytes → Result KoError KoFile
unfolding read_elf_header read_section_headers name_sections content index_by_name load_symbols
    index_symbols
load_ko blob = do
  e ← read_elf_header blob
  headers ← read_section_headers blob e.e_shoff 0 e.e_shnum
  shstr ← or_raise invalid_shstrndx (get_elem? headers e.e_shstrndx)
  strings ← content truncated_shstrtab blob shstr.section
  let sections = name_sections strings headers
  let by_name = index_by_name sections []
  symbols ← load_symbols blob sections by_name
  ok (record {
    blob = blob;
    sections = sections;
    sections_by_name = by_name;
    symbols = symbols;
    sym_by_name = index_symbols 0 symbols [];
  })

-- `find_symbol`. The indices of `sym_by_name` are indices of `symbols`.
unfoldable pub find_symbol : KoFile → Text → Option (ℕ × KoSymbol)
find_symbol ko name = elim (lookup name ko.sym_by_name) [
  | none ↦ none
  | some idx ↦ elim (get_elem? ko.symbols idx) [ none ↦ none | some sym ↦ some (idx, sym) ]
]
