-- ===== src/Requests.antt =====
-- make_dll/build_PIC_so.py: `parse_symbol_requests` and `load_shim_symbols`, on the text of the file.
pub mod Names
pub mod Roundtrip
use binary_kernel_code_mappi.Prelude.{
  ℕ, Bool, true, false, List, [], ◌∷◌, ◌++◌, Option, none, some, Text, contains, if◌then◌else◌,
}
use binary_kernel_code_mappi.TextOps.{split_lines, before_hash, strip, first_word}

unfoldable pub first_token : Text → Text
unfolding before_hash strip first_word
first_token raw = first_word (strip (before_hash raw))

-- An empty line has an empty token, and is skipped like a token that was seen.
pub add_name : Text → List Text → List Text
unfolding contains
add_name [] names = names
add_name (c ∷ cs) names = if contains names (c ∷ cs) then names else names ++ (c ∷ cs) ∷ []

-- The loop over the lines; `names` is also the set `seen`, since the two grow together.
pub add_requests : List Text → List Text → List Text
unfolding first_token add_name
add_requests [] names = names
add_requests (raw ∷ raws) names = add_requests raws (add_name (first_token raw) names)

unfoldable pub parse_symbol_requests : Text → List Text
unfolding add_requests split_lines
parse_symbol_requests text = add_requests (split_lines text) []

-- `none` where there is no file. The result is a set.
unfoldable pub load_shim_symbols : Option Text → List Text
unfolding parse_symbol_requests
load_shim_symbols none = []
load_shim_symbols (some text) = parse_symbol_requests text
