-- ===== src/Btf/Render.antt =====
-- `render_c_decl` and `render_function_decl`: a type as the text of a C declaration.
pub mod Returns
use binary_kernel_code_mappi.Prelude.{
  ℕ, zero, suc, ◌+◌, ◌-◌, ◌/◌, ◌%◌, ◌==◌, ltb, ◌&&◌, ◌||◌, not, Bool, true, false, List, [], ◌∷◌,
  ◌++◌, Option, none, some, Text, codes, length, take, text_eq, if◌then◌else◌,
}
use binary_kernel_code_mappi.TextOps.{decimal, strip, strip_right, ends_with}
use binary_kernel_code_mappi.Btf.{
  BtfKind, typedef, const, volatile, restrict, ptr, array, struct, union, enum, enum64, func_proto,
  func, int, float, void, other_kind, BtfParam, BtfType, is_func, same_name, find_func_proto_id,
}
use binary_kernel_code_mappi.Btf.Closure.{SourcePlace, own, base, Sources, get_type}

-- `f"{tid}"`
unfoldable pub number_text : Option ℕ → Text
unfolding decimal
number_text none = codes "None"
number_text (some n) = decimal n

unfoldable pub format_name : Option Text → Text
format_name none = codes "None"
format_name (some name) = name

abbrev pub Found : Type 0
Found = Option (SourcePlace × BtfType)

found_at : SourcePlace → Option BtfType → Found
found_at place none = none
found_at place (some o) = some (place, o)

or_base : Found → Found → Found
or_base none other = other
or_base (some f) other = some f

-- The source itself, and then its base.
unfoldable pub lookup_type : Sources → SourcePlace → Option ℕ → Found
unfolding found_at or_base get_type
lookup_type src place none = none
lookup_type src base (some tid) = found_at base (get_type src base tid)
lookup_type src own (some tid) =
    or_base (found_at own (get_type src own tid)) (found_at base (get_type src base tid))

unfoldable pub any_bracket : Text → Bool
any_bracket [] = false
any_bracket (c ∷ s) = c == b'*' || c == b'[' || c == b'(' || any_bracket s

unfoldable pub group_decl_if_needed : Text → Text
unfolding any_bracket
group_decl_if_needed decl = if any_bracket decl then codes "(" ++ decl ++ codes ")" else decl

-- `f"{a} {b}".strip()`
unfoldable pub spaced : Text → Text → Text
spaced a b = strip (a ++ codes " " ++ b)

unfoldable pub has_text : Text → Bool
has_text [] = false
has_text (c ∷ s) = true

-- `f"{tag} {name}"`, or the tag where the type has no name.
unfoldable pub tagged : Text → Option Text → Text
unfolding has_text
tagged tag none = tag
tagged tag (some name) =
    if has_text name && not (text_eq name (codes "(anon)")) then tag ++ codes " " ++ name else tag

unfoldable pub pointer_decl : Text → Text
unfolding has_text group_decl_if_needed
pointer_decl decl = if has_text decl then codes "*" ++ group_decl_if_needed decl else codes "*"

unfoldable pub array_decl : ℕ → Text → Text
unfolding decimal
array_decl nr_elems decl = decl ++ codes "[" ++ decimal nr_elems ++ codes "]"

-- The qualifier stands before what was rendered; `rendered[:-len(decl)].rstrip()`.
unfoldable pub qualified : Text → Text → Text → Text
unfolding has_text spaced
qualified qualifier decl rendered =
    if has_text decl && ends_with rendered decl
    then strip (
        qualifier
        ++ codes " "
        ++ strip_right (take (length rendered - length decl) rendered)
        ++ codes " "
        ++ decl)
    else spaced qualifier rendered

unfoldable pub map_option : (Text → Text) → Option Text → Option Text
map_option f none = none
map_option f (some s) = some (f s)

-- `p.get("name") or f"arg{idx}"`
unfoldable pub param_name : ℕ → Option Text → Text
unfolding has_text decimal
param_name idx none = codes "arg" ++ decimal idx
param_name idx (some name) = if has_text name then name else codes "arg" ++ decimal idx

-- `", ".join(params)`
unfoldable pub join_comma : List Text → Text
join_comma [] = []
join_comma (p ∷ []) = p
join_comma (p ∷ q ∷ ps) = p ++ codes ", " ++ join_comma (q ∷ ps)

unfoldable pub or_void : List Text → Text
unfolding join_comma
or_void [] = codes "void"
or_void (p ∷ ps) = join_comma (p ∷ ps)

unfoldable pub function_decl : Text → List Text → Text
unfolding has_text group_decl_if_needed or_void
function_decl decl params =
    (if has_text decl then group_decl_if_needed decl else [])
    ++ codes "("
    ++ or_void params
    ++ codes ")"

add_param : Option Text → Option (List Text) → Option (List Text)
add_param none rest = none
add_param (some p) none = none
add_param (some p) (some ps) = some (p ∷ ps)

-- The type 0 among the parameters stands for `...`.
unfoldable pub render_params :
    (Option ℕ → Text → Option Text) → ℕ → List BtfParam → Option (List Text)
unfolding add_param param_name
render_params inner idx [] = some []
render_params inner idx (p ∷ ps) =
    add_param
      (elim p.type_id [
        | none ↦ inner none (param_name idx p.name)
        | some tid ↦
            if tid == 0 then some (codes "...") else inner (some tid) (param_name idx p.name)
      ])
      (render_params inner (suc idx) ps)

with_params : (Text → Option Text) → Text → Option (List Text) → Option Text
unfolding function_decl
with_params inner decl none = none
with_params inner decl (some params) = inner (function_decl decl params)

unfoldable pub unsupported : Text → Option ℕ → Text → Text
unfolding spaced number_text
unsupported kind tid decl =
    spaced (codes "/* unsupported_" ++ kind ++ codes "_" ++ number_text tid ++ codes " */") decl

-- The cases of `kind`; `inner` renders another type of the same source.
unfoldable pub render_kind :
    (Option ℕ → Text → Option Text) → BtfKind → BtfType → Option ℕ → Text → Option Text
unfolding spaced format_name tagged pointer_decl array_decl qualified map_option render_params
    with_params unsupported
render_kind inner typedef o tid decl = some (spaced (format_name o.name) decl)
render_kind inner int o tid decl = some (spaced (format_name o.name) decl)
render_kind inner float o tid decl = some (spaced (format_name o.name) decl)
render_kind inner void o tid decl = some (spaced (codes "void") decl)
render_kind inner enum o tid decl = some (spaced (tagged (codes "enum") o.name) decl)
render_kind inner enum64 o tid decl = some (spaced (tagged (codes "enum") o.name) decl)
render_kind inner struct o tid decl = some (spaced (tagged (codes "struct") o.name) decl)
render_kind inner union o tid decl = some (spaced (tagged (codes "union") o.name) decl)
render_kind inner ptr o tid decl = inner o.type_id (pointer_decl decl)
render_kind inner array o tid decl = inner o.elem_type_id (array_decl o.nr_elems decl)
render_kind inner const o tid decl =
    map_option (qualified (codes "const") decl) (inner o.type_id decl)
render_kind inner volatile o tid decl =
    map_option (qualified (codes "volatile") decl) (inner o.type_id decl)
render_kind inner restrict o tid decl =
    map_option (qualified (codes "restrict") decl) (inner o.type_id decl)
render_kind inner func_proto o tid decl =
    with_params (inner o.ret_type_id) decl (render_params inner 0 o.params)
render_kind inner func o tid decl = some (unsupported (codes "FUNC") tid decl)
render_kind inner (other_kind k) o tid decl = some (unsupported k tid decl)

render_found : (SourcePlace → Option ℕ → Text → Option Text) → Found → Option ℕ → Text → Option Text
unfolding render_kind
render_found inner none tid decl =
    some (spaced (codes "/* unresolved_btf_" ++ number_text tid ++ codes " */") decl)
render_found inner (some (owner, o)) tid decl = render_kind (inner owner) o.kind o tid decl

-- The fuel is the depth to which Python lets the calls nest; none where it does not suffice.
unfoldable pub render_c_decl : Sources → ℕ → SourcePlace → Option ℕ → Text → Option Text
unfolding lookup_type render_found spaced number_text
render_c_decl src zero place tid decl = none
render_c_decl src (suc depth) place none decl =
    render_found (render_c_decl src depth) (lookup_type src place none) none decl
render_c_decl src (suc depth) place (some zero) decl = some (spaced (codes "void") decl)
render_c_decl src (suc depth) place (some (suc i)) decl =
    render_found (render_c_decl src depth) (lookup_type src place (some (suc i))) (some (suc i))
      decl

-- None where the source has no function of that name; within, none where the depth does not suffice.
unfoldable pub render_function_decl : Sources → ℕ → Text → Option (Option Text)
unfolding render_c_decl map_option find_func_proto_id
render_function_decl src depth name = elim (find_func_proto_id src.own_by_id name) [
  | none ↦ none
  | some proto ↦
      some (map_option (λ s. s ++ codes ";") (render_c_decl src depth own (some proto) name))
]
