-- ===== src/Btf/Layouts.antt =====
-- The end of `main`: which of the marked types are written, source by source, and each name once.
pub mod Keys
pub mod Once
pub mod Types
pub mod Sameness
pub mod Written
use binary_kernel_code_mappi.Prelude.{
  ℕ, ◌==◌, ◌&&◌, ◌||◌, Bool, true, false, List, [], ◌∷◌, ◌++◌, Option, none, some, Text, codes,
  text_eq, if◌then◌else◌,
}
use binary_kernel_code_mappi.Btf.{
  BtfKind, typedef, const, volatile, restrict, ptr, array, struct, union, enum, enum64, func_proto,
  func, int, float, void, other_kind, BtfType, Index, get,
}
use binary_kernel_code_mappi.Btf.Sources.{BtfSource}

-- The kinds that have a layout.
unfoldable pub layout_kind : BtfKind → Option Text
layout_kind struct = some (codes "STRUCT")
layout_kind union = some (codes "UNION")
layout_kind enum = some (codes "ENUM")
layout_kind enum64 = some (codes "ENUM64")
layout_kind typedef = some (codes "TYPEDEF")
layout_kind const = none
layout_kind volatile = none
layout_kind restrict = none
layout_kind ptr = none
layout_kind array = none
layout_kind func_proto = none
layout_kind func = none
layout_kind int = none
layout_kind float = none
layout_kind void = none
layout_kind (other_kind k) = none

-- `(kind, name)`, or `(kind, label, tid)` for a type without a name.
pub data Key : Type 0 where
  named : Text → Text → Key
  anonymous : Text → Text → ℕ → Key

unfoldable pub same_key : Key → Key → Bool
same_key (named k n) (named k' n') = text_eq k k' && text_eq n n'
same_key (anonymous k l i) (anonymous k' l' i') = text_eq k k' && text_eq l l' && i == i'
same_key (named k n) (anonymous k' l' i') = false
same_key (anonymous k l i) (named k' n') = false

unfoldable pub has_key : List Key → Key → Bool
unfolding same_key
has_key [] key = false
has_key (k ∷ keys) key = same_key k key || has_key keys key

-- `not name or name == "(anon)"`
unfoldable pub is_anonymous : Option Text → Bool
is_anonymous none = true
is_anonymous (some []) = true
is_anonymous (some (c ∷ s)) = text_eq (c ∷ s) (codes "(anon)")

unfoldable pub name_text : Option Text → Text
name_text none = []
name_text (some name) = name

unfoldable pub key_for : Text → Text → ℕ → Option Text → Key
unfolding is_anonymous name_text
key_for kind label tid name =
    if is_anonymous name then anonymous kind label tid else named kind (name_text name)

-- The key of a type of a source; none where it has no layout.
unfoldable pub layout_key : BtfSource → ℕ → Option Key
unfolding get layout_kind key_for
layout_key src tid = elim (get src.by_id tid) [
  | none ↦ none
  | some o ↦ elim (layout_kind o.kind) [
    | none ↦ none
    | some kind ↦ some (key_for kind src.label tid o.name)
  ]
]

-- The loop over the marked types of a source, with the keys so far: the numbers to write, and the keys.
unfoldable pub layout_ids : BtfSource → List ℕ → List Key → List ℕ × List Key
unfolding layout_key has_key
layout_ids src [] emitted = ([], emitted)
layout_ids src (tid ∷ tids) emitted = elim (layout_key src tid) [
  | none ↦ layout_ids src tids emitted
  | some key ↦
      let skip = layout_ids src tids emitted in
      let rest = layout_ids src tids (key ∷ emitted) in
      if has_key emitted key then skip else (tid ∷ rest.0, rest.1)
]

-- A source of which nothing is written is left out.
unfoldable pub add_source :
    BtfSource → List ℕ → List (BtfSource × List ℕ) → List (BtfSource × List ℕ)
add_source src [] sources = sources
add_source src (tid ∷ tids) sources = (src, tid ∷ tids) ∷ sources

-- For each source what is marked in it.
unfoldable pub emit_layouts : List (BtfSource × List ℕ) → List Key → List (BtfSource × List ℕ)
unfolding layout_ids add_source
emit_layouts [] emitted = []
emit_layouts ((src, marked) ∷ sources) emitted =
    let (ids, emitted') = layout_ids src marked emitted in
    add_source src ids (emit_layouts sources emitted')
