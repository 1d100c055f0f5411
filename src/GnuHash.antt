-- ===== src/GnuHash.antt =====
-- make_dll/build_PIC_so.py: the GNU hash table of the dynamic symbols: `gnu_hash`, `_reorder_symbols_for_hash` and
-- `_build_gnu_hash`.
pub mod Bits
pub mod Order
pub mod Table
pub mod Filter
pub mod Contents
pub mod Lookup
use Prim.Native.Nat.{bit_or}
use binary_kernel_code_mappi.Prelude.{
  ℕ, zero, suc, ◌+◌, ◌-◌, ◌*◌, ◌/◌, ◌%◌, ◌^◌, max, Bool, true, false, not, ◌&&◌, ◌||◌, List, [],
  ◌∷◌, ◌++◌, map, Option, none, some, Bytes, Text, length, get_or, set, replicate, ltb, leb, ◌==◌,
  if◌then◌else◌,
}
use binary_kernel_code_mappi.Words.{to_le, words}
use binary_kernel_code_mappi.Symbols.{ResolvedSymbol}

unfoldable pub gnu_hash_from : ℕ → Text → ℕ
gnu_hash_from h [] = h
gnu_hash_from h (ch ∷ name) = gnu_hash_from ((h * 33 + ch) % 2 ^ 32) name

unfoldable pub gnu_hash : Text → ℕ
unfolding gnu_hash_from
gnu_hash = gnu_hash_from 5381

-- `gnu_nbuckets` and `gnu_bloom_size`, from the number of dynamic symbols.
unfoldable pub gnu_nbuckets : ℕ → ℕ
gnu_nbuckets count = if count == 0 then 1 else max 3 count

unfoldable pub gnu_bloom_size : ℕ → ℕ
gnu_bloom_size count = if count == 0 then 1 else max 1 ((count + 63) / 64)

abbrev pub gnu_bloom_shift : ℕ
gnu_bloom_shift = 6

unfoldable pub hashed : ℕ → ResolvedSymbol → ResolvedSymbol
hashed nbuckets sym = record sym {
  gnu_hash_value = gnu_hash sym.name;
  gnu_bucket = gnu_hash sym.name % nbuckets;
}

undefined_flag : Bool → ℕ
undefined_flag true = 0
undefined_flag false = 1

-- The order of the sort keys `(gnu_bucket, 0 if defined else 1, export_order, original_order)`.
unfoldable pub key_le : ResolvedSymbol → ResolvedSymbol → Bool
unfolding undefined_flag
key_le s t =
    ltb s.gnu_bucket t.gnu_bucket
    || (s.gnu_bucket == t.gnu_bucket
        && (ltb (undefined_flag s.defined) (undefined_flag t.defined)
            || (undefined_flag s.defined == undefined_flag t.defined
                && (ltb s.export_order t.export_order
                    || (s.export_order == t.export_order
                        && leb s.original_order t.original_order)))))

unfoldable pub insert_symbol : ResolvedSymbol → List ResolvedSymbol → List ResolvedSymbol
unfolding key_le
insert_symbol s [] = s ∷ []
insert_symbol s (t ∷ ts) = if key_le s t then s ∷ t ∷ ts else t ∷ insert_symbol s ts

-- The stable sort.
unfoldable pub sort_symbols : List ResolvedSymbol → List ResolvedSymbol
unfolding insert_symbol
sort_symbols [] = []
sort_symbols (s ∷ ss) = insert_symbol s (sort_symbols ss)

-- `_reorder_symbols_for_hash`
unfoldable pub reorder_symbols_for_hash : ℕ → List ResolvedSymbol → List ResolvedSymbol
unfolding sort_symbols hashed
reorder_symbols_for_hash nbuckets symbols = sort_symbols (map (hashed nbuckets) symbols)

-- The tables; `last` is `prev_bucket` with `last_index`, which are set together.
pub record HashTables : Type 0 where
  pub bloom : List ℕ
  pub buckets : List ℕ
  pub chains : List ℕ
  pub last : Option (ℕ × ℕ)

-- `chains[i] |= 1`
unfoldable pub end_chain : List ℕ → ℕ → List ℕ
end_chain chains i = set chains i (bit_or (get_or chains i 0) 1)

-- `(1 << (h % 64)) | (1 << ((h >> shift) % 64))`
unfoldable pub bitmask : ℕ → ℕ
bitmask h = bit_or (2 ^ (h % 64)) (2 ^ (h / 2 ^ gnu_bloom_shift % 64))

-- The chains after the test for the end of the chain before `bucket_idx`.
unfoldable pub close_chain : List ℕ → List ℕ → ℕ → Option (ℕ × ℕ) → List ℕ
unfolding end_chain
close_chain buckets chains bucket_idx none = chains
close_chain buckets chains bucket_idx (some (prev_bucket, last_index)) =
    if get_or buckets bucket_idx 0 == 0 || not (bucket_idx == prev_bucket)
    then end_chain chains (last_index - 1)
    else chains

-- The body of the loop, at the symbol of index `dyn_index`.
unfoldable pub add_symbol : ℕ → ℕ → ResolvedSymbol → HashTables → HashTables
unfolding bitmask close_chain
add_symbol bloom_size dyn_index sym t =
    let h = sym.gnu_hash_value in
    let bucket_idx = sym.gnu_bucket in
    let word = h / 64 % bloom_size in
    record {
      bloom = set t.bloom word (bit_or (get_or t.bloom word 0) (bitmask h));
      buckets =
          if get_or t.buckets bucket_idx 0 == 0
          then set t.buckets bucket_idx dyn_index
          else t.buckets;
      chains = set (close_chain t.buckets t.chains bucket_idx t.last) (dyn_index - 1) (h / 2 * 2);
      last = some (bucket_idx, dyn_index);
    }

unfoldable pub add_symbols : ℕ → ℕ → List ResolvedSymbol → HashTables → HashTables
unfolding add_symbol
add_symbols bloom_size dyn_index [] t = t
add_symbols bloom_size dyn_index (sym ∷ syms) t =
    add_symbols bloom_size (dyn_index + 1) syms (add_symbol bloom_size dyn_index sym t)

-- The last chain ends at the last symbol.
unfoldable pub close_last : HashTables → HashTables
unfolding end_chain
close_last t = elim t.last [
  | none ↦ t
  | some last ↦ record t { chains = end_chain t.chains (last.1 - 1) }
]

unfoldable pub hash_tables : ℕ → ℕ → List ResolvedSymbol → HashTables
unfolding add_symbols close_last
hash_tables nbuckets bloom_size symbols = close_last (
    add_symbols bloom_size 1 symbols (record {
      bloom = replicate bloom_size 0;
      buckets = replicate nbuckets 0;
      chains = replicate (length symbols) 0;
      last = none;
    }))

-- `struct.pack("<Q", word)` for each word.
unfoldable pub quads : List ℕ → Bytes
quads [] = []
quads (v ∷ vs) = to_le 8 v ++ quads vs

-- `_build_gnu_hash`: the content of the section.
unfoldable pub build_gnu_hash : ℕ → ℕ → List ResolvedSymbol → Bytes
unfolding hash_tables quads
build_gnu_hash nbuckets bloom_size [] = []
build_gnu_hash nbuckets bloom_size (s ∷ ss) =
    let t = hash_tables nbuckets bloom_size (s ∷ ss) in
    words (nbuckets ∷ 1 ∷ bloom_size ∷ gnu_bloom_shift ∷ [])
    ++ (quads t.bloom ++ (words t.buckets ++ words t.chains))
