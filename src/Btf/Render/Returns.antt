-- ===== src/Btf/Render/Returns.antt =====
-- Rendering ends where the types that have no name of their own are not nested in themselves.
use binary_kernel_code_mappi.Prelude.{
  ℕ, zero, suc, ◌<◌, ◌≡◌, refl, ◌==◌, inl, inr, Bool-cases, List, [], ◌∷◌, map, Option, none, some,
  Text, codes, In, if◌then◌else◌, arith,
}
use binary_kernel_code_mappi.Btf.{
  BtfKind, typedef, const, volatile, restrict, ptr, array, struct, union, enum, enum64, func_proto,
  func, int, float, void, other_kind, BtfParam, BtfType,
}
use binary_kernel_code_mappi.Btf.Closure.{SourcePlace, Sources}
use binary_kernel_code_mappi.Btf.Render.{
  Found, lookup_type, map_option, param_name, render_params, function_decl, render_kind,
  render_found, render_c_decl,
}

-- The types whose text is part of the text of a type: a struct, a union, an enum and a typedef go by their names.
unfoldable pub nested : BtfKind → BtfType → List (Option ℕ)
nested typedef o = []
nested const o = o.type_id ∷ []
nested volatile o = o.type_id ∷ []
nested restrict o = o.type_id ∷ []
nested ptr o = o.type_id ∷ []
nested array o = o.elem_type_id ∷ []
nested struct o = []
nested union o = []
nested enum o = []
nested enum64 o = []
nested func_proto o = o.ret_type_id ∷ map (λ (p : BtfParam). p.type_id) o.params
nested func o = []
nested int o = []
nested float o = []
nested void o = []
nested (other_kind k) o = []

-- A rank that falls from a type to those nested in it.
abbrev pub IsRank : Sources → (SourcePlace → Option ℕ → ℕ) → Type 0
IsRank src rank =
    (place : SourcePlace) (tid : Option ℕ) (owner : SourcePlace) (o : BtfType) (m : Option ℕ)
    → lookup_type src place tid ≡ some (owner, o)
    → In m (nested o.kind o)
    → rank owner m < rank place tid

abbrev Renders : (Option ℕ → Text → Option Text) → Option ℕ → Type 0
Renders inner m = (decl : Text) → (s : Text) × (inner m decl ≡ some s)

render_params-some :
    (inner : Option ℕ → Text → Option Text) (idx : ℕ) (ps : List BtfParam)
    → ((m : Option ℕ) → In m (map (λ (p : BtfParam). p.type_id) ps) → Renders inner m)
    → (params : List Text) × (render_params inner idx ps ≡ some params)
unfolding render_params
render_params-some inner idx [] each = ([], refl)
render_params-some inner idx (p ∷ ps) each =
    let (rest, later) = render_params-some inner (suc idx) ps (λ m at. each m (inr at)) in
    let (one, now) = first p.type_id (each p.type_id (inl refl)) in
    (one ∷ rest, rw (now, later) refl)
  where
    first :
        (tid : Option ℕ)
        → Renders inner tid
        → (s : Text) × (elim tid as (λ _. Option Text) [
          | none ↦ inner none (param_name idx p.name)
          | some i ↦ if i == 0 then some (codes "...") else inner (some i) (param_name idx p.name)
        ]
            ≡ some s)
    first none renders = renders (param_name idx p.name)
    first (some i) renders = elim (Bool-cases (i == 0)) [
      | inl dots ↦ (codes "...", rw dots refl)
      | inr type ↦ rw type (renders (param_name idx p.name))
    ]

map_option-some :
    (f : Text → Text) (o : Option Text)
    → ((s : Text) × (o ≡ some s))
    → (s : Text) × (map_option f o ≡ some s)
unfolding map_option
map_option-some f o (s, e) = (f s, rw e refl)

render_kind-some :
    (inner : Option ℕ → Text → Option Text) (kind : BtfKind) (o : BtfType) (tid : Option ℕ)
    (decl : Text)
    → ((m : Option ℕ) → In m (nested kind o) → Renders inner m)
    → (s : Text) × (render_kind inner kind o tid decl ≡ some s)
unfolding render_kind nested
render_kind-some inner typedef o tid decl each = (_, refl)
render_kind-some inner const o tid decl each = map_option-some _ _ (each o.type_id (inl refl) decl)
render_kind-some inner volatile o tid decl each =
    map_option-some _ _ (each o.type_id (inl refl) decl)
render_kind-some inner restrict o tid decl each =
    map_option-some _ _ (each o.type_id (inl refl) decl)
render_kind-some inner ptr o tid decl each = each o.type_id (inl refl) _
render_kind-some inner array o tid decl each = each o.elem_type_id (inl refl) _
render_kind-some inner struct o tid decl each = (_, refl)
render_kind-some inner union o tid decl each = (_, refl)
render_kind-some inner enum o tid decl each = (_, refl)
render_kind-some inner enum64 o tid decl each = (_, refl)
render_kind-some inner func o tid decl each = (_, refl)
render_kind-some inner int o tid decl each = (_, refl)
render_kind-some inner float o tid decl each = (_, refl)
render_kind-some inner void o tid decl each = (_, refl)
render_kind-some inner (other_kind k) o tid decl each = (_, refl)
render_kind-some inner func_proto o tid decl each =
    let (params, rendered) = render_params-some inner 0 o.params (λ m at. each m (inr at)) in
    let (s, done) = each o.ret_type_id (inl refl) (function_decl decl params) in
    (s, rw rendered done)

-- With more levels of calls than the rank of the type, its declaration is rendered.
pub render_c_decl-returns :
    (src : Sources) (rank : SourcePlace → Option ℕ → ℕ) (depth : ℕ) (place : SourcePlace)
    (tid : Option ℕ) (decl : Text)
    → IsRank src rank
    → rank place tid < depth
    → (s : Text) × (render_c_decl src depth place tid decl ≡ some s)
unfolding render_c_decl render_found
render_c_decl-returns src rank zero place tid decl falls lt = absurd (omega arith)
render_c_decl-returns src rank (suc depth) place (some zero) decl falls lt = (_, refl)
render_c_decl-returns src rank (suc depth) place none decl falls lt = (_, refl)
render_c_decl-returns src rank (suc depth) place (some (suc i)) decl falls lt =
    found (lookup_type src place (some (suc i))) (λ owner o at m nest d.
      render_c_decl-returns src rank depth owner m d falls
        (omega (arith, falls place (some (suc i)) owner o m at nest)))
  where
    found :
        (f : Found)
        → ((owner : SourcePlace) (o : BtfType)
            → f ≡ some (owner, o)
            → (m : Option ℕ) → In m (nested o.kind o)
            → Renders (render_c_decl src depth owner) m)
        → (s : Text) × (render_found (render_c_decl src depth) f (some (suc i)) decl ≡ some s)
    found none each = (_, refl)
    found (some (owner, o)) each =
        render_kind-some (render_c_decl src depth owner) o.kind o (some (suc i)) decl
          (each owner o refl)
