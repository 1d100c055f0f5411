-- ===== src/Btf.antt =====
-- kernel_cgd/kerne_type/vkso_gen_types.py: the types that bpftool prints as JSON, indexed by their number.
pub mod Closure
pub mod Sources
pub mod Requests
pub mod Layouts
pub mod Render
use binary_kernel_code_mappi.Prelude.{
  ℕ, ◌==◌, ◌&&◌, Bool, true, false, List, [], ◌∷◌, Option, none, some, Text, text_eq, if◌then◌else◌,
}

pub data BtfKind : Type 0 where
  typedef const volatile restrict ptr array struct union enum enum64 func_proto func int float
        void :
      BtfKind
  other_kind : Text → BtfKind

pub record BtfParam : Type 0 where
  pub name : Option Text
  pub type_id : Option ℕ

-- A field is none where the object does not have the key; missing `members` and `params` are empty.
pub record BtfType : Type 0 where
  pub id : Option ℕ
  pub kind : BtfKind
  pub name : Option Text
  pub type_id : Option ℕ
  pub elem_type_id : Option ℕ
  pub ret_type_id : Option ℕ
  pub nr_elems : ℕ
  pub members : List (Option ℕ)
  pub params : List BtfParam

abbrev pub Index : Type 0
Index = List (ℕ × BtfType)

-- `by_id.get(tid)`
unfoldable pub get : Index → ℕ → Option BtfType
get [] tid = none
get ((i, o) ∷ d) tid = if i == tid then some o else get d tid

-- `by_id[tid] = o`
unfoldable pub put : ℕ → BtfType → Index → Index
put tid o [] = (tid, o) ∷ []
put tid o ((i, p) ∷ d) = if i == tid then (i, o) ∷ d else (i, p) ∷ put tid o d

index_object : Option BtfType → Index → Index
unfolding put
index_object none d = d
index_object (some o) d = elim o.id [ none ↦ d | some tid ↦ put tid o d ]

index_objects : List (Option BtfType) → Index → Index
unfolding index_object
index_objects [] d = d
index_objects (o ∷ objs) d = index_objects objs (index_object o d)

-- A value that is no object is none.
unfoldable pub build_index : List (Option BtfType) → Index
unfolding index_objects
build_index objs = index_objects objs []

unfoldable pub is_func : BtfKind → Bool
is_func func = true
is_func _ = false

unfoldable pub same_name : Option Text → Text → Bool
same_name none name = false
same_name (some n) name = text_eq n name

-- The type of the first function of that name.
unfoldable pub find_func_proto_id : Index → Text → Option ℕ
unfolding is_func same_name
find_func_proto_id [] name = none
find_func_proto_id ((tid, o) ∷ d) name =
    if is_func o.kind && same_name o.name name then o.type_id else find_func_proto_id d name
