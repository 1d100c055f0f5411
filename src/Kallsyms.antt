-- ===== src/Kallsyms.antt =====
-- kernel_cgd/kerne_type/vkso_gen_types.py: `load_kallsyms_owner_hints`, on the lines of /proc/kallsyms: which module
-- owns a global text symbol or an exported symbol, where only one does.
pub mod Lines
pub mod Unique
use binary_kernel_code_mappi.Prelude.{
  ℕ, ◌-◌, Bool, true, false, not, ◌&&◌, ◌||◌, List, [], ◌∷◌, ◌++◌, Option, none, some, Text, Dict,
  codes, length, take, drop, contains, text_eq, starts_with, lookup, insert, if◌then◌else◌,
}
use binary_kernel_code_mappi.TextOps.{split_words, ends_with}

abbrev pub vmlinux : Text
vmlinux = codes "vmlinux"

-- `parts[3][1:-1]`, where the fourth part stands in brackets.
unfoldable pub kallsyms_owner : List Text → Text
kallsyms_owner (a ∷ b ∷ c ∷ d ∷ rest) =
    if starts_with d (codes "[") && ends_with d (codes "]")
    then take (length d - 2) (drop 1 d)
    else vmlinux
kallsyms_owner _ = vmlinux

pub record Owners : Type 0 where
  pub owners : Dict Text
  pub duplicates : List Text

-- `_remember_unique_owner`
unfoldable pub remember_unique_owner : Text → Text → Owners → Owners
remember_unique_owner name owner h = elim (lookup name h.owners) [
  | none ↦ record h { owners = insert name owner h.owners }
  | some prev ↦
      if text_eq prev owner || contains h.duplicates name
      then h
      else record h { duplicates = name ∷ h.duplicates }
]

-- `KSYMTAB_PREFIXES`, in the order in which they are tried.
abbrev pub ksymtab_prefixes : List Text
ksymtab_prefixes =
    codes "__ksymtab_"
    ∷ codes "__ksymtab_gpl_"
    ∷ codes "__ksymtab_unused_"
    ∷ codes "__ksymtab_unused_gpl_"
    ∷ []

some_nonempty : Text → Option Text
some_nonempty [] = none
some_nonempty (c ∷ s) = some (c ∷ s)

-- The name behind the first prefix that the symbol has; none where it is empty.
unfoldable pub exported_name : List Text → Text → Option Text
unfolding some_nonempty
exported_name [] sym = none
exported_name (p ∷ ps) sym =
    if starts_with sym p then some_nonempty (drop (length p) sym) else exported_name ps sym

-- A symbol of type `T` or `W`, with its owner.
unfoldable pub text_entry : List Text → Option (Text × Text)
unfolding kallsyms_owner
text_entry (a ∷ sym_type ∷ sym ∷ rest) =
    if text_eq sym_type (codes "T") || text_eq sym_type (codes "W")
    then some (sym, kallsyms_owner (a ∷ sym_type ∷ sym ∷ rest))
    else none
text_entry _ = none

owned : Text → Option Text → Option (Text × Text)
owned owner none = none
owned owner (some name) = some (name, owner)

unfoldable pub export_entry : List Text → Option (Text × Text)
unfolding kallsyms_owner exported_name owned
export_entry (a ∷ sym_type ∷ sym ∷ rest) =
    owned (kallsyms_owner (a ∷ sym_type ∷ sym ∷ rest)) (exported_name ksymtab_prefixes sym)
export_entry _ = none

unfoldable pub remember_entry : Option (Text × Text) → Owners → Owners
unfolding remember_unique_owner
remember_entry none h = h
remember_entry (some (name, owner)) h = remember_unique_owner name owner h

pub record Hints : Type 0 where
  pub global_text : Owners
  pub exported : Owners

-- The loop over the lines; a line of fewer than three parts has no entry.
unfoldable pub read_lines : List Text → Hints → Hints
unfolding text_entry export_entry remember_entry split_words
read_lines [] h = h
read_lines (raw ∷ raws) h = read_lines raws (record {
  global_text = remember_entry (text_entry (split_words raw)) h.global_text;
  exported = remember_entry (export_entry (split_words raw)) h.exported;
})

-- `owners.pop(sym, None)` for each duplicate.
unfoldable pub without_duplicates : List Text → Dict Text → Dict Text
without_duplicates duplicates [] = []
without_duplicates duplicates ((name, owner) ∷ d) =
    let rest = without_duplicates duplicates d in
    if contains duplicates name then rest else (name, owner) ∷ rest

abbrev pub no_owners : Owners
no_owners = record { owners = []; duplicates = [] }

-- The owners of the global text symbols and of the exported symbols.
unfoldable pub load_kallsyms_owner_hints : List Text → Dict Text × Dict Text
unfolding read_lines without_duplicates
load_kallsyms_owner_hints lines =
    let h = read_lines lines (record { global_text = no_owners; exported = no_owners }) in
    (
      without_duplicates h.global_text.duplicates h.global_text.owners,
      without_duplicates h.exported.duplicates h.exported.owners,
    )
