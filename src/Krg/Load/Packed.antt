-- ===== src/Krg/Load/Packed.antt =====
-- Each table of the file is read back from where it was written.
use binary_kernel_code_mappi.Prelude.{
  ℕ, ◌+◌, ◌*◌, ◌^◌, ◌<◌, ◌≡◌, refl, sym, ap, ◌∙◌, false, List, [], ◌∷◌, ◌++◌, some, Bytes, All,
  length, get_elem?, drop, length-append, take-append, ltb, ok, arith,
}
use mathlib.Core.List.{append_assoc}
use binary_kernel_code_mappi.Words.{to_le, field, words}
use binary_kernel_code_mappi.Words.Layout.{
  At, At-append, AreU32, field-to_le, field-words, length-to_le, length-words, read_u32s-words,
}
use binary_kernel_code_mappi.Krg.Load.{
  LoadError, RawNode, magic, read_header, read_node, read_nodes, read_table, read_blob,
}
use binary_kernel_code_mappi.Krg.Load.Save.{pack_node, pack_nodes}

pub record FitsNode (r : RawNode) : Type 0 where
  pub address : r.address < 256 ^ 8
  pub size : r.size < 256 ^ 4
  pub module_id : r.module_id < 256 ^ 2
  pub kind : r.kind < 256 ^ 1

length-pack_node : (r : RawNode) → length (pack_node r) ≡ 16
unfolding pack_node
length-pack_node r = omega (
  arith,
  length-append (to_le 8 r.address)
      (to_le 4 r.size ++ (to_le 2 r.module_id ++ (to_le 1 r.kind ++ 0 ∷ []))),
  length-append (to_le 4 r.size) (to_le 2 r.module_id ++ (to_le 1 r.kind ++ 0 ∷ [])),
  length-append (to_le 2 r.module_id) (to_le 1 r.kind ++ 0 ∷ []),
  length-append (to_le 1 r.kind) (0 ∷ []),
  length-to_le 8 r.address,
  length-to_le 4 r.size,
  length-to_le 2 r.module_id,
  length-to_le 1 r.kind,
)

pub length-pack_nodes : (rs : List RawNode) → length (pack_nodes rs) ≡ length rs * 16
unfolding pack_nodes
length-pack_nodes [] = refl
length-pack_nodes (r ∷ rs) =
    omega
      (arith, length-append (pack_node r) (pack_nodes rs), length-pack_node r, length-pack_nodes rs)

read_node-pack :
    (r : RawNode) (c : ℕ) (blob rest : Bytes)
    → FitsNode r
    → drop c blob ≡ pack_node r ++ rest
    → read_node 2 blob c ≡ r
unfolding read_node pack_node
read_node-pack r c blob rest fits e =
    let (address, at_size) =
      field-to_le 8 r.address c blob _ fits.address (e ∙ append_assoc (to_le 8 r.address) _ rest) in
    let (size, at_module) =
      field-to_le 4 r.size (c + 8) blob _ fits.size
        (at_size ∙ append_assoc (to_le 4 r.size) _ rest) in
    let twelve : c + 8 + 4 ≡ c + 12 = omega arith in
    let (module_id, at_kind) = field-to_le 2 r.module_id (c + 12) blob _ fits.module_id (
      ap (λ k. drop k blob) (sym twelve) ∙ at_module ∙ append_assoc (to_le 2 r.module_id) _ rest) in
    let fourteen : c + 12 + 2 ≡ c + 14 = omega arith in
    let (kind, _) =
      field-to_le 1 r.kind (c + 14) blob _ fits.kind
        (ap (λ k. drop k blob) (sym fourteen) ∙ at_kind ∙ append_assoc (to_le 1 r.kind) _ rest) in
    cc

pub read_nodes-pack :
    (rs : List RawNode) (c : ℕ) (blob rest : Bytes)
    → All FitsNode rs
    → At blob c (pack_nodes rs ++ rest)
    → read_nodes (length rs) 2 blob c ≡ ok rs
unfolding read_nodes pack_nodes
read_nodes-pack [] c blob rest fits h = refl
read_nodes-pack (r ∷ rs) c blob rest (fit, fits) h =
    let tail = pack_nodes rs ++ rest in
    let e = append_assoc (pack_node r) (pack_nodes rs) rest in
    let here : At blob c (pack_node r ++ tail) = rw e at h in
    let n = length-pack_node r in
    let next : At blob (c + 16) tail = rw n at (At-append blob c (pack_node r) tail here) in
    let size = next.size in
    let fine : ltb (length blob) (c + 16) ≡ false = ground arith in
    rw (
      fine,
      read_nodes-pack rs (c + 16) blob rest fits next,
      read_node-pack r c blob tail fit here.behind,
    )

pub read_table-words :
    (e : LoadError) (vs : List ℕ) (c : ℕ) (blob rest : Bytes)
    → AreU32 vs
    → At blob c (words vs ++ rest)
    → read_table e (length vs) blob c ≡ ok vs
unfolding read_table
read_table-words e vs c blob rest fits h =
    let size = h.size in
    let fine : ltb (length blob) (c + length vs * 4) ≡ false =
      ground (arith, length-append (words vs) rest, length-words vs) in
    rw (fine, read_u32s-words vs c blob rest fits h.behind)

pub read_blob-append :
    (e : LoadError) (s : Bytes) (c : ℕ) (blob rest : Bytes)
    → At blob c (s ++ rest)
    → read_blob e (length s) blob c ≡ ok s
unfolding read_blob
read_blob-append e s c blob rest h =
    let size = h.size in
    let behind = h.behind in
    let fine : ltb (length blob) (c + length s) ≡ false = ground (arith, length-append s rest) in
    rw (fine, behind, take-append s rest)

-- The header of version 2: its ten words, of which six are kept.
pub read_header-words :
    (n_nodes n_edges names n_modules modules : ℕ) (rest : Bytes)
    → let vs = magic ∷ 2 ∷ n_nodes ∷ n_edges ∷ names ∷ 0 ∷ 0 ∷ 0 ∷ n_modules ∷ modules ∷ [] in
      AreU32 vs
      → read_header (words vs ++ rest)
        ≡ ok (record {
          version = 2;
          n_nodes = n_nodes;
          n_edges = n_edges;
          name_blob_bytes = names;
          n_modules = n_modules;
          module_blob_bytes = modules;
          cursor = 40;
        })
unfolding read_header
read_header-words n_nodes n_edges names n_modules modules rest fits =
    let vs = magic ∷ 2 ∷ n_nodes ∷ n_edges ∷ names ∷ 0 ∷ 0 ∷ 0 ∷ n_modules ∷ modules ∷ [] in
    let blob = words vs ++ rest in
    let size : length blob ≡ 40 + length rest =
      omega (arith, length-append (words vs) rest, length-words vs) in
    let at : (i v : ℕ) → get_elem? vs i ≡ some v → field blob (0 + 4 * i) 4 ≡ v =
      λ i v e. field-words vs i v 0 blob rest fits e refl in
    ground (
      arith,
      size,
      at 0 magic refl,
      at 1 2 refl,
      at 2 n_nodes refl,
      at 3 n_edges refl,
      at 4 names refl,
      at 8 n_modules refl,
      at 9 modules refl,
    )
