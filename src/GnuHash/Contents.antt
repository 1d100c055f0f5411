-- ===== src/GnuHash/Contents.antt =====
-- The tables as a whole: each in a closed form.
use binary_kernel_code_mappi.Prelude.{
  ℕ, zero, suc, ◌+◌, ◌<◌, ◌≡◌, refl, ap, ◌∙◌, true, List, [], ◌∷◌, none, some, length,
  length-replicate, get_or, replicate, In, All, inl, inr, Option-cases, ◌==◌, arith,
}
use binary_kernel_code_mappi.Symbols.{ResolvedSymbol}
use binary_kernel_code_mappi.GnuHash.{
  HashTables, add_symbol, add_symbols, close_chain, close_last, hash_tables,
}
use binary_kernel_code_mappi.GnuHash.Table.{
  clear, chain_words, first_index, InBuckets, add_symbol-length_buckets, add_symbol-bucket_full,
  add_symbols-chains,
}
use binary_kernel_code_mappi.GnuHash.Filter.{HasBothBits, add_symbols-buckets, add_symbols-marks}

get_or-replicate : (n i : ℕ) → get_or {A = ℕ} (replicate n 0) i 0 ≡ 0
get_or-replicate zero i = refl
get_or-replicate (suc n) zero = refl
get_or-replicate (suc n) (suc i) = get_or-replicate n i

close_last-buckets : (t : HashTables) → (close_last t).buckets ≡ t.buckets
unfolding close_last
close_last-buckets t = elim (Option-cases t.last) [ inl e ↦ rw e refl | inr (a, e) ↦ rw e refl ]

close_last-bloom : (t : HashTables) → (close_last t).bloom ≡ t.bloom
unfolding close_last
close_last-bloom t = elim (Option-cases t.last) [ inl e ↦ rw e refl | inr (a, e) ↦ rw e refl ]

abbrev first_tables : ℕ → ℕ → ℕ → HashTables
first_tables nbuckets bloom_size count = record {
  bloom = replicate bloom_size 0;
  buckets = replicate nbuckets 0;
  chains = replicate count 0;
  last = none;
}

module _ (nbuckets bloom_size : ℕ) (symbols : List ResolvedSymbol)
    (range : All (λ s. s.gnu_bucket < nbuckets) symbols) where
  in_buckets : InBuckets (first_tables nbuckets bloom_size (length symbols)).buckets symbols
  in_buckets = rw (length-replicate {A = ℕ} nbuckets 0) range

  pub hash_tables-buckets :
      (b : ℕ)
      → get_or (hash_tables nbuckets bloom_size symbols).buckets b 0 ≡ first_index b 1 symbols
  unfolding hash_tables
  hash_tables-buckets b =
      let t = first_tables nbuckets bloom_size (length symbols) in
      let filled = add_symbols-buckets bloom_size b 1 symbols t (omega arith) in_buckets in
      let empty : (get_or t.buckets b 0 == 0) ≡ true = rw (get_or-replicate nbuckets b) refl in
      ap (λ bs. get_or bs b 0) (close_last-buckets (add_symbols bloom_size 1 symbols t))
      ∙ rw empty at filled

  pub hash_tables-bloom :
      (s : ResolvedSymbol)
      → 0 < bloom_size
      → In s symbols
      → HasBothBits bloom_size (hash_tables nbuckets bloom_size symbols).bloom s.gnu_hash_value
  unfolding hash_tables
  hash_tables-bloom s pos member =
      let t = first_tables nbuckets bloom_size (length symbols) in
      rw (close_last-bloom (add_symbols bloom_size 1 symbols t)) (
        add_symbols-marks bloom_size 1 s symbols t pos (length-replicate {A = ℕ} bloom_size 0)
          member)

  pub hash_tables-chains : (hash_tables nbuckets bloom_size symbols).chains ≡ chain_words symbols
  unfolding hash_tables
  hash_tables-chains = go symbols range
    where
      go :
          (ss : List ResolvedSymbol)
          → All (λ s. s.gnu_bucket < nbuckets) ss
          → (close_last
              (add_symbols bloom_size 1 ss (first_tables nbuckets bloom_size (length ss)))).chains
            ≡ chain_words ss
      go [] h = unfold add_symbols close_last chain_words in refl
      go (s ∷ ss) (h, hs) =
          let t = first_tables nbuckets bloom_size (suc (length ss)) in
          let t' = add_symbol bloom_size 1 s t in
          let size : length t.buckets ≡ nbuckets = length-replicate {A = ℕ} nbuckets 0 in
          let size' : length t'.buckets ≡ nbuckets =
            add_symbol-length_buckets bloom_size 1 s t ∙ size in
          let inside : s.gnu_bucket < length t.buckets = rw size h in
          let full = add_symbol-bucket_full bloom_size 1 s t inside (omega arith) in
          let chains : t'.chains ≡ clear s ∷ replicate (length ss) 0 =
            unfold add_symbol close_chain in refl in
          let last : t'.last ≡ some (s.gnu_bucket, 0 + 1) = unfold add_symbol in refl in
          unfold add_symbols in
          add_symbols-chains bloom_size [] s ss t' chains last full (rw size' hs)
