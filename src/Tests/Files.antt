-- ===== src/Tests/Files.antt =====
-- Symbol lists and graph files.
use binary_kernel_code_mappi.Prelude.{
  ℕ, ◌%◌, ◌^◌, ◌≤◌, ◌≡◌, ◌≢◌, ◌↔◌, refl, false, [], ◌∷◌, Text, In, All, IsDistinct, codes, contains,
  text_eq, ◌==◌, ok, arith,
}
use binary_kernel_code_mappi.Align.{align, align_down}
use binary_kernel_code_mappi.Align.Bounds.{align-least, align_down-greatest}
use binary_kernel_code_mappi.TextOps.{is_space, split_lines}
use binary_kernel_code_mappi.Requests.{parse_symbol_requests}
use binary_kernel_code_mappi.Requests.Names.{IsNameChar, IsToken, parse_symbol_requests_names}
use binary_kernel_code_mappi.Requests.Roundtrip.{unlines, parse_symbol_requests-unlines}
use binary_kernel_code_mappi.Krg.Load.{RawNode, index_names, load}
use binary_kernel_code_mappi.Krg.Load.Save.{Source, header_words, lay_out, save}
use binary_kernel_code_mappi.Krg.Load.Strings.{IsName, named}
use binary_kernel_code_mappi.Krg.Load.Packed.{FitsNode}
use binary_kernel_code_mappi.Krg.Load.Roundtrip.{IsKrgFile, IsSource, load-save-lay_out}

align-least_example :
    (align 5 (2 ^ 12) % 2 ^ 12 ≡ 0)
    × (5 ≤ align 5 (2 ^ 12))
    × ((m : ℕ) → m % 2 ^ 12 ≡ 0 → 5 ≤ m → align 5 (2 ^ 12) ≤ m)
align-least_example = align-least 5 12

align_down-greatest_example :
    (align_down 5000 (2 ^ 12) % 2 ^ 12 ≡ 0)
    × (align_down 5000 (2 ^ 12) ≤ 5000)
    × ((m : ℕ) → m % 2 ^ 12 ≡ 0 → m ≤ 5000 → m ≤ align_down 5000 (2 ^ 12))
align_down-greatest_example = align_down-greatest 5000 12

abbrev request_text : Text
request_text = codes "# list\nkfree  12 # freed\n\n crc32_le\r\nkfree\n"

parsed : parse_symbol_requests request_text ≡ codes "kfree" ∷ codes "crc32_le" ∷ []
unfolding parse_symbol_requests text_eq
parsed = refl

parse_symbol_requests_names_example :
    IsDistinct (parse_symbol_requests request_text)
    × ((n : Text)
        → In n (parse_symbol_requests request_text) ↔ IsToken (split_lines request_text) n)
    × ((n : Text) → In n (parse_symbol_requests request_text) → All IsNameChar n × (n ≢ []))
parse_symbol_requests_names_example = parse_symbol_requests_names request_text

name_char : (c : ℕ) → is_space c ≡ false → (c == b'#') ≡ false → IsNameChar c
name_char c h k = (h, ground arith)

name_f : All IsNameChar (codes "f")
unfolding is_space
name_f = (name_char _ refl refl, tt)

name_g2 : All IsNameChar (codes "g2")
unfolding is_space
name_g2 = (name_char _ refl refl, (name_char _ refl refl, tt))

nonempty : (c : ℕ) (s : Text) → (c ∷ s) ≢ []
nonempty c s h = cc

IsDistinct-names : IsDistinct (codes "f" ∷ codes "g2" ∷ [])
unfolding contains text_eq
IsDistinct-names = (refl, (refl, tt))

parse_symbol_requests-unlines_example :
    parse_symbol_requests (unlines (codes "f" ∷ codes "g2" ∷ [])) ≡ codes "f" ∷ codes "g2" ∷ []
parse_symbol_requests-unlines_example =
    parse_symbol_requests-unlines (codes "f" ∷ codes "g2" ∷ []) (name_f, (name_g2, tt))
      (nonempty _ _, (nonempty _ _, tt)) IsDistinct-names

abbrev node : ℕ → ℕ → RawNode
node address module_id = record { address = address; size = 16; module_id = module_id; kind = 0 }

-- `f` of the kernel calls `g2` of a module.
abbrev two_nodes : Source
two_nodes = record {
  raw_nodes = node 0xffffffff81000000 0 ∷ node 0xffffffffc0000010 1 ∷ [];
  names = codes "f" ∷ codes "g2" ∷ [];
  row_ptr = 0 ∷ 1 ∷ 1 ∷ [];
  col_idx = 1 ∷ [];
  modules = codes "kernel" ∷ codes "m" ∷ [];
}

node_fits :
    (address module_id : ℕ)
    → address ≤ 0xffffffffffffffff
    → module_id ≤ 9
    → FitsNode (node address module_id)
node_fits address module_id h k = record {
  address = omega arith;
  size = omega arith;
  module_id = omega arith;
  kind = omega arith;
}

file_fits : IsKrgFile (lay_out two_nodes)
unfolding lay_out header_words
file_fits = record {
  rows = refl;
  offsets = refl;
  header_fits = ground arith;
  nodes_fit =
      (node_fits _ _ (omega arith) (omega arith), (node_fits _ _ (omega arith) (omega arith), tt));
  rows_fit = ground arith;
  cols_fit = ground arith;
  offs_fit = ground arith;
  module_offs_fit = ground arith;
}

is_name1 : (a : ℕ) → a ≤ 127 → 1 ≤ a → IsName (a ∷ [])
is_name1 a h k = ground arith

is_name2 : (a b : ℕ) → a ≤ 127 → 1 ≤ a → b ≤ 127 → 1 ≤ b → IsName (a ∷ b ∷ [])
is_name2 a b h k i j = ground arith

two_nodes-IsSource : IsSource two_nodes
two_nodes-IsSource = record {
  file = file_fits;
  has_module = λ h. cc;
  names_fit = (
    is_name1 _ (omega arith) (omega arith),
    (is_name2 _ _ (omega arith) (omega arith) (omega arith) (omega arith), tt),
  );
  modules_fit = (ground arith, (is_name1 _ (omega arith) (omega arith), tt));
}

load-save-lay_out_example :
    load (save (lay_out two_nodes))
    ≡ ok (record {
      nodes = named two_nodes.modules two_nodes.raw_nodes two_nodes.names;
      name_to_id = index_names 0 (named two_nodes.modules two_nodes.raw_nodes two_nodes.names) [];
      node_count = 2;
      row_ptr = 0 ∷ 1 ∷ 1 ∷ [];
      col_idx = 1 ∷ [];
      modules = codes "kernel" ∷ codes "m" ∷ [];
    })
load-save-lay_out_example = load-save-lay_out two_nodes two_nodes-IsSource
