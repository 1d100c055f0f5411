-- ===== src/Tests/Btf.antt =====
-- A small BTF: a pointer to an array of `int`, and a function in one of two sources.
use mathlib.Core.Path.{subst}
use binary_kernel_code_mappi.Prelude.{
  ℕ, zero, suc, ◌≡◌, ◌≢◌, ◌↔◌, ◌⊎◌, refl, sym, ap, inl, inr, List, [], ◌∷◌, Option, none, some,
  Text, codes, In, text_eq, contains, lookup, arith,
}
use binary_kernel_code_mappi.TextOps.{strip}
use binary_kernel_code_mappi.Btf.{
  BtfKind, BtfType, ptr, array, int, func, struct, Index, find_func_proto_id,
}
use binary_kernel_code_mappi.Btf.Closure.{
  SourcePlace, own, base, Sources, get_type, Node, is_marked, mentioned, add_type_closure,
}
use binary_kernel_code_mappi.Btf.Closure.Reach.{IsMarked, target, mentions, TypeReach, here, step}
use binary_kernel_code_mappi.Btf.Closure.Visits.{IsSettled}
use binary_kernel_code_mappi.Btf.Closure.Correct.{IsClosed}
use binary_kernel_code_mappi.Btf.Closure.Depth.{Within, add_type_closure-marks}
use binary_kernel_code_mappi.Btf.Sources.{
  BtfSource, discover_sources_for_func, filter_matches_by_owner_hints,
}
use binary_kernel_code_mappi.Btf.Requests.{Candidates, DeclKey, resolve_requests, nothing_resolved}
use binary_kernel_code_mappi.Btf.Requests.Resolved.{AllChosen, resolve_requests-resolved}
use binary_kernel_code_mappi.Btf.Requests.Chosen.{IsOnlyChosen, AreDistinct}
use binary_kernel_code_mappi.Btf.Layouts.{emit_layouts}
use binary_kernel_code_mappi.Btf.Layouts.Types.{Entry, entries, IsLaidOut, IsSameType, AreApart}
use binary_kernel_code_mappi.Btf.Layouts.Written.{emit_layouts-once}
use binary_kernel_code_mappi.Btf.Render.{lookup_type, render_c_decl}
use binary_kernel_code_mappi.Btf.Render.Returns.{nested, IsRank, render_c_decl-returns}

abbrev type_of : BtfKind → Option Text → Option ℕ → Option ℕ → BtfType
type_of kind name type_id elem_type_id = record {
  id = none;
  kind = kind;
  name = name;
  type_id = type_id;
  elem_type_id = elem_type_id;
  ret_type_id = none;
  nr_elems = 3;
  members = [];
  params = [];
}

-- 1 is `int`, 2 an array of three, 3 a pointer to it.
abbrev int_type : BtfType
int_type = type_of int (some (codes "int")) none none

abbrev array_type : BtfType
array_type = type_of array none none (some 1)

abbrev pointer_type : BtfType
pointer_type = type_of ptr none (some 2) none

abbrev three_types : Sources
three_types = record {
  own_by_id = (1, int_type) ∷ (2, array_type) ∷ (3, pointer_type) ∷ [];
  base_by_id = none;
}

-- C reads this as an array of three pointers.
pointer_to_array_run :
    render_c_decl three_types 3 own (some 3) (codes "p") ≡ some (codes "int *p[3]")
unfolding render_c_decl get_type strip
pointer_to_array_run = refl

-- The rank of a type is its number.
abbrev rank : SourcePlace → Option ℕ → ℕ
rank place none = 0
rank place (some i) = i

no_more : (i : ℕ) → get_type three_types own (suc (suc (suc (suc i)))) ≡ none
unfolding get_type
no_more i = ground arith

falls : IsRank three_types rank
unfolding lookup_type get_type nested
falls own (some zero) owner o m at nest = cc
falls own (some (suc zero)) owner o m at nest =
    let same : int_type ≡ o = cc in
    absurd (subst (λ (y : BtfType). In m (nested y.kind y)) (sym same) nest)
falls own (some (suc (suc zero))) owner o m at nest =
    let same : array_type ≡ o = cc in
    elim (subst (λ (y : BtfType). In m (nested y.kind y)) (sym same) nest) [
      | inl e ↦ rw e (omega arith)
      | inr bad ↦ absurd bad
    ]
falls own (some (suc (suc (suc zero)))) owner o m at nest =
    let same : pointer_type ≡ o = cc in
    elim (subst (λ (y : BtfType). In m (nested y.kind y)) (sym same) nest) [
      | inl e ↦ rw e (omega arith)
      | inr bad ↦ absurd bad
    ]
falls own (some (suc (suc (suc (suc i))))) owner o m at nest =
    absurd (let bad = rw (no_more i) at at in cc)
falls base (some i) owner o m at nest = cc
falls own none owner o m at nest = cc
falls base none owner o m at nest = cc

render_c_decl-returns_example :
    (s : Text) × (render_c_decl three_types 4 own (some 3) (codes "p") ≡ some s)
render_c_decl-returns_example =
    render_c_decl-returns three_types rank 4 own (some 3) (codes "p") falls (omega arith)

-- From the pointer the array is reached, and the integer from it.
abbrev reached : List Node
reached = (own, 3) ∷ (own, 2) ∷ (own, 1) ∷ []

three_types_targets :
    (i : ℕ)
    → In (some (suc i)) (some 1 ∷ some 2 ∷ some 3 ∷ [])
    → target three_types own (suc i) ≡ (own, suc i)
unfolding target get_type
three_types_targets i (inl e) = let k : i ≡ 0 = cc in rw k refl
three_types_targets i (inr (inl e)) = let k : i ≡ 1 = cc in rw k refl
three_types_targets i (inr (inr (inl e))) = let k : i ≡ 2 = cc in rw k refl
three_types_targets i (inr (inr (inr bad))) = absurd bad

reached-step :
    (tid : ℕ) (o : BtfType) (i : ℕ)
    → In (own, tid) reached
    → get_type three_types own tid ≡ some o
    → In (some (suc i)) (mentioned o.kind o)
    → In (target three_types own (suc i)) reached
unfolding get_type mentioned
reached-step tid o i (inl e) found at =
    let k : tid ≡ 3 = ap (λ (n : Node). n.1) e in
    let found' : get_type three_types own 3 ≡ some o = rw k at found in
    let same : o ≡ pointer_type = cc in
    elim (subst (λ (y : BtfType). In (some (suc i)) (mentioned y.kind y)) same at) [
      | inl f ↦
          rw (three_types_targets i (inr (inl f))) (let j : i ≡ 1 = cc in rw j (inr (inl refl)))
      | inr bad ↦ absurd bad
    ]
reached-step tid o i (inr (inl e)) found at =
    let k : tid ≡ 2 = ap (λ (n : Node). n.1) e in
    let found' : get_type three_types own 2 ≡ some o = rw k at found in
    let same : o ≡ array_type = cc in
    elim (subst (λ (y : BtfType). In (some (suc i)) (mentioned y.kind y)) same at) [
      | inl f ↦
          rw (three_types_targets i (inl f)) (let j : i ≡ 0 = cc in rw j (inr (inr (inl refl))))
      | inr bad ↦ absurd bad
    ]
reached-step tid o i (inr (inr (inl e))) found at =
    let k : tid ≡ 1 = ap (λ (n : Node). n.1) e in
    let found' : get_type three_types own 1 ≡ some o = rw k at found in
    let same : o ≡ int_type = cc in
    absurd (subst (λ (y : BtfType). In (some (suc i)) (mentioned y.kind y)) same at)
reached-step tid o i (inr (inr (inr bad))) found at = absurd bad

no_base : (tid : ℕ) (o : BtfType) → get_type three_types base tid ≢ some o
unfolding get_type
no_base tid o found = cc

reached-Within : Within three_types reached own (some 3)
reached-Within i e n r =
    let k : suc i ≡ 3 = cc in reach n (subst (λ (y : ℕ). TypeReach three_types own y n) k r)
  where
    reach : (n : Node) → TypeReach three_types own 3 n → In n reached
    reach n (here _ e) = rw e (inl (three_types_targets 2 (inr (inr (inl refl)))))
    reach n (step r (mentions own tid o i v found at e)) =
        rw e (reached-step tid o i (reach (own, tid) r) found at)
    reach n (step r (mentions base tid o i v found at e)) = absurd (no_base tid o found)

nothing-IsSettled : IsSettled three_types []
unfolding is_marked
nothing-IsSettled n m = cc

nothing-IsClosed : IsClosed three_types []
unfolding is_marked
nothing-IsClosed n v m e = cc

add_type_closure-marks_example :
    (marks : List Node) × (add_type_closure three_types 8 own (some 3) [] ≡ some marks)
    × ((n : Node) → IsMarked marks n ↔ (IsMarked [] n ⊎ TypeReach three_types own 3 n))
    × IsSettled three_types marks
    × IsClosed three_types marks
add_type_closure-marks_example =
    add_type_closure-marks three_types reached 8 own 2 [] nothing-IsSettled nothing-IsClosed
      reached-Within (omega arith)

add_type_closure_run :
    add_type_closure three_types 8 own (some 3) [] ≡ some ((own, 1) ∷ (own, 2) ∷ (own, 3) ∷ [])
unfolding add_type_closure
add_type_closure_run = refl

-- The function `f` is in the module only.
abbrev source_of : Text → Index → BtfSource
source_of label by_id = record { source_id = label; label = label; by_id = by_id }

abbrev two_sources : Candidates
two_sources = record {
  base_source = source_of (codes "vmlinux") ((1, int_type) ∷ []);
  modules = source_of (codes "one") ((9, type_of func (some (codes "f")) (some 4) none) ∷ []) ∷ [];
  global_text_owners = [];
  exported_symbol_owners = [];
}

two_sources-AreDistinct : AreDistinct two_sources
unfolding contains text_eq
two_sources-AreDistinct = (refl, (refl, tt))

resolve_requests-resolved_example :
    (((resolve_requests two_sources (codes "f" ∷ []) nothing_resolved).missing_required ≡ [])
      ↔ AllChosen two_sources (codes "f" ∷ []))
    × ((key : DeclKey)
        → In key (resolve_requests two_sources (codes "f" ∷ []) nothing_resolved).decl_order ↔ (
            (name : Text) × (src : BtfSource) × In name (codes "f" ∷ [])
            × IsOnlyChosen two_sources name src
            × (key ≡ (src.source_id, name))))
resolve_requests-resolved_example =
    resolve_requests-resolved two_sources (codes "f" ∷ []) two_sources-AreDistinct

resolve_requests_run :
    (resolve_requests two_sources (codes "f" ∷ []) nothing_resolved).decl_order
    ≡ (codes "one", codes "f") ∷ []
unfolding resolve_requests filter_matches_by_owner_hints discover_sources_for_func
    find_func_proto_id lookup text_eq
resolve_requests_run = refl

-- A struct of the same name in both sources is written once.
abbrev struct_type : BtfType
struct_type = type_of struct (some (codes "s")) none none

abbrev same_struct : List (BtfSource × List ℕ)
same_struct =
    (source_of (codes "one") ((7, struct_type) ∷ []), 7 ∷ [])
    ∷ (source_of (codes "vmlinux") ((5, struct_type) ∷ []), 5 ∷ [])
    ∷ []

emit_layouts-once_example :
    AreApart (entries (emit_layouts same_struct []))
    × ((e : Entry)
        → In e (entries (emit_layouts same_struct []))
        → In e (entries same_struct) × IsLaidOut e)
    × ((e : Entry)
        → In e (entries same_struct)
        → IsLaidOut e
        → (w : Entry) × In w (entries (emit_layouts same_struct [])) × IsSameType e w)
emit_layouts-once_example = emit_layouts-once same_struct

emit_layouts_run :
    emit_layouts same_struct [] ≡ (source_of (codes "one") ((7, struct_type) ∷ []), 7 ∷ []) ∷ []
unfolding emit_layouts text_eq
emit_layouts_run = refl
