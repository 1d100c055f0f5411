-- ===== src/Btf/Closure.antt =====
-- `add_type_closure`: a type and all types that it mentions are marked. The set `marked` of a source and that of
-- its base are one list of pairs.
pub mod Reach
pub mod Visits
pub mod Correct
pub mod Depth
use binary_kernel_code_mappi.Prelude.{
  ℕ, zero, suc, ◌==◌, ◌&&◌, ◌||◌, Bool, true, false, List, [], ◌∷◌, map, Option, none, some,
  if◌then◌else◌,
}
use binary_kernel_code_mappi.Btf.{
  BtfKind, typedef, const, volatile, restrict, ptr, array, struct, union, enum, enum64, func_proto,
  func, int, float, void, other_kind, BtfParam, BtfType, Index, get,
}

-- The source itself, or its base.
pub data SourcePlace : Type 0 where
  own base : SourcePlace

pub record Sources : Type 0 where
  pub own_by_id : Index
  pub base_by_id : Option Index

unfoldable pub get_in_base : Option Index → ℕ → Option BtfType
unfolding get
get_in_base none tid = none
get_in_base (some by_id) tid = get by_id tid

unfoldable pub get_type : Sources → SourcePlace → ℕ → Option BtfType
unfolding get get_in_base
get_type src own tid = get src.own_by_id tid
get_type src base tid = get_in_base src.base_by_id tid

abbrev pub Node : Type 0
Node = SourcePlace × ℕ

unfoldable pub same_place : SourcePlace → SourcePlace → Bool
same_place own own = true
same_place base base = true
same_place own base = false
same_place base own = false

unfoldable pub same_node : Node → Node → Bool
unfolding same_place
same_node (p, i) (q, j) = same_place p q && i == j

unfoldable pub is_marked : List Node → Node → Bool
unfolding same_node
is_marked [] n = false
is_marked (m ∷ marks) n = same_node m n || is_marked marks n

unfoldable pub is_some : Option BtfType → Bool
is_some none = false
is_some (some o) = true

-- `src.base is not None and root_id in src.base.by_id`; the base has no base.
unfoldable pub in_base : Sources → SourcePlace → ℕ → Bool
unfolding get_in_base is_some
in_base src own tid = is_some (get_in_base src.base_by_id tid)
in_base src base tid = false

-- The numbers of the types that a type mentions.
unfoldable pub mentioned : BtfKind → BtfType → List (Option ℕ)
mentioned typedef o = o.type_id ∷ []
mentioned const o = o.type_id ∷ []
mentioned volatile o = o.type_id ∷ []
mentioned restrict o = o.type_id ∷ []
mentioned ptr o = o.type_id ∷ []
mentioned array o = o.elem_type_id ∷ []
mentioned struct o = o.members
mentioned union o = o.members
mentioned enum o = []
mentioned enum64 o = []
mentioned func_proto o = o.ret_type_id ∷ map (λ (p : BtfParam). p.type_id) o.params
mentioned func o = o.type_id ∷ []
mentioned int o = []
mentioned float o = []
mentioned void o = []
mentioned (other_kind k) o = []

-- The calls for several numbers, one after the other.
unfoldable pub follow_all :
    (Option ℕ → List Node → Option (List Node)) → List (Option ℕ) → List Node → Option (List Node)
follow_all follow [] marks = some marks
follow_all follow (tid ∷ tids) marks = elim (follow tid marks) [
  | none ↦ none
  | some marks' ↦ follow_all follow tids marks'
]

-- The fuel is the depth to which Python lets the calls nest; none where it does not suffice.
unfoldable pub add_type_closure :
    Sources → ℕ → SourcePlace → Option ℕ → List Node → Option (List Node)
unfolding follow_all is_marked get_type in_base mentioned
add_type_closure src zero place root_id marks = none
add_type_closure src (suc depth) place none marks = some marks
add_type_closure src (suc depth) place (some zero) marks = some marks
add_type_closure src (suc depth) place (some (suc i)) marks =
    let in_base_source = add_type_closure src depth base (some (suc i)) marks in
    if is_marked marks (place, suc i) then some marks else elim (get_type src place (suc i)) [
      | none ↦ if in_base src place (suc i) then in_base_source else some ((place, suc i) ∷ marks)
      | some o ↦
          follow_all (add_type_closure src depth place) (mentioned o.kind o)
            ((place, suc i) ∷ marks)
    ]
