-- ===== src/Ko/CoreLayout.antt =====
-- `KoFile._is_core_section` and `compute_core_layout`: the module's text, read-only data and data one after the other,
-- with the images of the two kinds of data and the relocations of the writable one.
use binary_kernel_code_mappi.Prelude.{
  ℕ, zero, suc, ◌+◌, ◌-◌, ◌/◌, ◌%◌, ◌^◌, max, Bool, false, not, ◌&&◌, ◌||◌, List, [], ◌∷◌, ◌++◌,
  Option, none, some, Bytes, Text, codes, length, get_elem?, select, replicate, starts_with,
  text_eq, ltb, ◌==◌, if◌then◌else◌, Result, ok, ◌>>=◌, ◌>>◌, raise_if,
}
use binary_kernel_code_mappi.Prelude.Int.{ℤ, pos, negsuc}
use binary_kernel_code_mappi.Align.{page_size, align}
use binary_kernel_code_mappi.Words.{field}
use binary_kernel_code_mappi.Thunks.{write_at}
use binary_kernel_code_mappi.Ko.{
  KoSection, KoSymbol, KoFile, KoError, struct_error, truncated_section, unexpected_rela_entsize,
  truncated_relocations, is_alloc, is_write, is_exec, is_undef, content, step_count,
}

-- `name == prefix or name.startswith(prefix + ".")`, for some prefix.
unfoldable pub has_prefix : List Text → Text → Bool
has_prefix [] name = false
has_prefix (p ∷ ps) name = text_eq name p || starts_with name (p ++ codes ".") || has_prefix ps name

unfoldable pub is_core_section : Text → Bool
unfolding has_prefix
is_core_section name =
    not (text_eq name [])
    && not (starts_with name (codes ".init") || starts_with name (codes ".exit"))
    && not
        (has_prefix (codes ".modinfo" ∷ codes ".return_sites" ∷ codes ".retpoline_sites" ∷ []) name)

-- A section with its offset in the layout.
pub record Slot : Type 0 where
  pub section : KoSection
  pub offset : ℕ

-- A loop over the sections of one kind: their slots, and the cursor behind the last.
unfoldable pub place_sections : ℕ → List KoSection → List Slot × ℕ
place_sections cursor [] = ([], cursor)
place_sections cursor (sec ∷ secs) =
    let offset = align cursor (max 1 sec.sh_addralign) in
    let (slots, last) = place_sections (offset + sec.sh_size) secs in
    (record { section = sec; offset = offset } ∷ slots, last)

-- `section_offsets[sec.index] = cursor`, for every slot in order: a later slot of the same index replaces the offset.
unfoldable pub offset_in : ℕ → List Slot → Option ℕ
offset_in index [] = none
offset_in index (slot ∷ slots) = elim (offset_in index slots) [
  | some off ↦ some off
  | none ↦ if slot.section.index == index then some slot.offset else none
]

abbrev pub sht_nobits : ℕ
sht_nobits = 8

-- The image of one kind, which starts at `base`: each section's content at its offset.
unfoldable pub fill_image : Bytes → ℕ → List Slot → Bytes → Result KoError Bytes
unfolding content
fill_image blob base [] image = ok image
fill_image blob base (slot ∷ slots) image =
    if slot.section.sh_size == 0 || slot.section.sh_type == sht_nobits
    then fill_image blob base slots image
    else content (truncated_section slot.section.name) blob slot.section >>= λ bytes.
        fill_image blob base slots (write_at image (slot.offset - base) bytes)

pub record KoDataReloc : Type 0 where
  pub offset : ℕ
  pub sym_idx : ℕ
  pub symbol_name : Text
  pub sym_shndx : ℕ
  pub sym_value : ℕ
  pub addend : ℤ
  pub r_type : ℕ
  pub undef : Bool

-- A signed field of 8 bytes.
unfoldable pub to_signed64 : ℕ → ℤ
to_signed64 v = if ltb v (2 ^ 63) then pos v else negsuc (2 ^ 64 - 1 - v)

-- What a relocation takes from its symbol; nothing where the index is out of range.
unfoldable pub with_symbol : Option KoSymbol → KoDataReloc → KoDataReloc
with_symbol none r = r
with_symbol (some sym) r = record r {
  symbol_name = sym.name;
  sym_shndx = sym.st_shndx;
  sym_value = sym.st_value;
  undef = is_undef sym;
}

unfoldable pub read_reloc : Bytes → List KoSymbol → ℕ → ℕ → KoDataReloc
unfolding to_signed64 with_symbol
read_reloc blob symbols base_off off =
    let r_info = field blob (off + 8) 8 in
    with_symbol (get_elem? symbols (r_info / 2 ^ 32)) (record {
      offset = base_off + field blob off 8;
      sym_idx = r_info / 2 ^ 32;
      symbol_name = [];
      sym_shndx = 0;
      sym_value = 0;
      addend = to_signed64 (field blob (off + 16) 8);
      r_type = r_info % 2 ^ 32;
      undef = false;
    })

-- The relocations of one section; `count` entries are left.
unfoldable pub read_relocs : Bytes → List KoSymbol → ℕ → ℕ → ℕ → Result KoError (List KoDataReloc)
unfolding read_reloc
read_relocs blob symbols base_off off zero = ok []
read_relocs blob symbols base_off off (suc count) = do
  raise_if (ltb (length blob) (off + 24)) struct_error
  rest ← read_relocs blob symbols base_off (off + 24) count
  ok (read_reloc blob symbols base_off off ∷ rest)

unfoldable pub has_index : ℕ → List Slot → Bool
has_index index [] = false
has_index index (slot ∷ slots) = slot.section.index == index || has_index index slots

-- The relocations of a section against a section of the data, which starts at `data_start`; none of another section.
unfoldable pub section_relocs :
    Bytes → List KoSymbol → List Slot → ℕ → KoSection → Result KoError (List KoDataReloc)
unfolding read_relocs has_index offset_in
section_relocs blob symbols slots data_start sec =
    if not (sec.sh_type == 4 && starts_with sec.name (codes ".rela."))
      || not (has_index sec.sh_info slots)
    then ok []
    else (do
      raise_if (not (sec.sh_entsize == 24)) (unexpected_rela_entsize sec.name)
      elim (offset_in sec.sh_info slots) [
        | none ↦ ok []
        | some target_base ↦
            raise_if (ltb (length blob) (sec.sh_offset + sec.sh_size))
              (truncated_relocations sec.name)
            >> read_relocs blob symbols (target_base - data_start) sec.sh_offset
                (step_count sec.sh_size)
      ])

unfoldable pub data_relocs :
    Bytes → List KoSymbol → List Slot → ℕ → List KoSection → Result KoError (List KoDataReloc)
unfolding section_relocs
data_relocs blob symbols slots data_start [] = ok []
data_relocs blob symbols slots data_start (sec ∷ secs) = do
  relocs ← section_relocs blob symbols slots data_start sec
  rest ← data_relocs blob symbols slots data_start secs
  ok (relocs ++ rest)

-- `KoCoreLayout`; `section_offsets` is given by the slots, where those of the data come last.
pub record KoCoreLayout : Type 0 where
  pub text : List Slot
  pub ro : List Slot
  pub data_slots : List Slot
  pub text_end : ℕ
  pub ro_end : ℕ
  pub data_end : ℕ
  pub ro_image : Bytes
  pub data_image : Bytes
  pub relocs : List KoDataReloc

-- The sections of one kind: `core_alloc` and the test of the kind.
unfoldable pub core_sections : (KoSection → Bool) → List KoSection → List KoSection
unfolding is_core_section
core_sections kind secs = select (λ s. is_alloc s && is_core_section s.name && kind s) secs

unfoldable pub compute_core_layout : KoFile → Result KoError KoCoreLayout
unfolding core_sections place_sections fill_image data_relocs
compute_core_layout ko = do
  let (text, text_last) = place_sections 0 (core_sections is_exec ko.sections)
  let text_end = align text_last page_size
  let (ro, ro_last) =
      place_sections text_end (core_sections (λ s. not (is_exec s) && not (is_write s)) ko.sections)
  let ro_end = align ro_last page_size
  let (data_slots, data_last) = place_sections ro_end (core_sections is_write ko.sections)
  let data_end = align data_last page_size
  ro_image ← fill_image ko.blob text_end ro (replicate (ro_end - text_end) 0)
  data_image ← fill_image ko.blob ro_end data_slots (replicate (data_end - ro_end) 0)
  relocs ← data_relocs ko.blob ko.symbols data_slots ro_end ko.sections
  ok (record {
    text = text;
    ro = ro;
    data_slots = data_slots;
    text_end = text_end;
    ro_end = ro_end;
    data_end = data_end;
    ro_image = ro_image;
    data_image = data_image;
    relocs = relocs;
  })
