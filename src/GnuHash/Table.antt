-- ===== src/GnuHash/Table.antt =====
-- What the loop over the dynamic symbols leaves in the chains, the buckets and the Bloom filter.
use Prim.Native.Nat.{bit_or}
use mathlib.Core.List.{append_assoc}
use binary_kernel_code_mappi.Prelude.{
  ℕ, zero, suc, ◌+◌, ◌-◌, ◌*◌, ◌/◌, ◌<◌, ◌≡◌, refl, ap, ◌∙◌, inl, inr, true, false, not, ◌||◌, List,
  [], ◌∷◌, ◌++◌, some, length, length-append, length-set, get_or, set, replicate, All, Bool-cases,
  ◌==◌, if◌then◌else◌, arith,
}
use binary_kernel_code_mappi.Symbols.{ResolvedSymbol}
use binary_kernel_code_mappi.GnuHash.{
  HashTables, end_chain, close_chain, add_symbol, add_symbols, close_last,
}
use binary_kernel_code_mappi.GnuHash.Bits.{bit_or-one}

pub get_or-set :
    (xs : List ℕ) (i j v d : ℕ)
    → i < length xs
    → get_or (set xs i v) j d ≡ (if i == j then v else get_or xs j d)
get_or-set [] i j v d h = absurd (omega arith)
get_or-set (x ∷ xs) zero zero v d h = refl
get_or-set (x ∷ xs) zero (suc j) v d h = ground arith
get_or-set (x ∷ xs) (suc i) zero v d h = ground arith
get_or-set (x ∷ xs) (suc i) (suc j) v d h = ground (arith, get_or-set xs i j v d)

set-append :
    (front rest : List ℕ) (c v : ℕ) → set (front ++ c ∷ rest) (length front) v ≡ front ++ v ∷ rest
set-append [] rest c v = refl
set-append (x ∷ front) rest c v = ap (λ t. x ∷ t) (set-append front rest c v)

get_or-append : (front rest : List ℕ) (c d : ℕ) → get_or (front ++ c ∷ rest) (length front) d ≡ c
get_or-append [] rest c d = refl
get_or-append (x ∷ front) rest c d = get_or-append front rest c d

-- The hash without its lowest bit, which the last symbol of a bucket sets.
abbrev pub clear : ResolvedSymbol → ℕ
clear s = s.gnu_hash_value / 2 * 2

-- The chain of `s`, when `t` follows it.
abbrev pub chain_before : ResolvedSymbol → ResolvedSymbol → ℕ
chain_before s t = if s.gnu_bucket == t.gnu_bucket then clear s else clear s + 1

unfoldable pub chain_words : List ResolvedSymbol → List ℕ
chain_words [] = []
chain_words (s ∷ []) = (clear s + 1) ∷ []
chain_words (s ∷ t ∷ ss) = chain_before s t ∷ chain_words (t ∷ ss)

-- The index of the first symbol of a bucket, or 0.
unfoldable pub first_index : ℕ → ℕ → List ResolvedSymbol → ℕ
first_index b i [] = 0
first_index b i (s ∷ ss) =
    let rest = first_index b (i + 1) ss in if s.gnu_bucket == b then i else rest

end_chain-append :
    (front rest : List ℕ) (h : ℕ)
    → end_chain (front ++ h / 2 * 2 ∷ rest) (length front) ≡ front ++ (h / 2 * 2 + 1) ∷ rest
unfolding end_chain
end_chain-append front rest h =
    let value : bit_or (h / 2 * 2) 1 ≡ h / 2 * 2 + 1 = omega (arith, bit_or-one (h / 2 * 2)) in
    rw (get_or-append front rest (h / 2 * 2) 0, value)
      (set-append front rest (h / 2 * 2) (h / 2 * 2 + 1))

abbrev pub InBuckets : List ℕ → List ResolvedSymbol → Type 0
InBuckets buckets = All (λ s. s.gnu_bucket < length buckets)

-- Where the bucket of the symbol before is not empty, the chain before ends exactly at a change of the bucket.
close_chain-append :
    (buckets front rest : List ℕ) (p s : ResolvedSymbol)
    → (get_or buckets p.gnu_bucket 0 == 0) ≡ false
    → close_chain buckets
        (front ++ clear p ∷ rest)
        s.gnu_bucket
        (some (p.gnu_bucket, length front + 1))
      ≡ front ++ chain_before p s ∷ rest
unfolding close_chain
close_chain-append buckets front rest p s full =
    let index : length front + 1 - 1 ≡ length front = omega arith in
    elim (Bool-cases (p.gnu_bucket == s.gnu_bucket)) [
      | inl same ↦
          let e : s.gnu_bucket ≡ p.gnu_bucket = ground arith in
          let self : (p.gnu_bucket == p.gnu_bucket) ≡ true = ground arith in rw (e, full, self) refl
      | inr other ↦
          let on : (get_or buckets s.gnu_bucket 0 == 0 || not (s.gnu_bucket == p.gnu_bucket))
              ≡ true =
            ground arith in
          rw (on, index, other) (end_chain-append front rest p.gnu_hash_value)
    ]

pub add_symbol-bucket_full :
    (bloom_size i : ℕ) (s : ResolvedSymbol) (t : HashTables)
    → s.gnu_bucket < length t.buckets
    → 0 < i
    → (get_or (add_symbol bloom_size i s t).buckets s.gnu_bucket 0 == 0) ≡ false
unfolding add_symbol
add_symbol-bucket_full bloom_size i s t h pos =
    elim (Bool-cases (get_or t.buckets s.gnu_bucket 0 == 0)) [
      | inl empty ↦ rw empty (ground (arith, get_or-set t.buckets s.gnu_bucket s.gnu_bucket i 0 h))
      | inr full ↦ rw full full
    ]

pub add_symbol-length_buckets :
    (bloom_size i : ℕ) (s : ResolvedSymbol) (t : HashTables)
    → length (add_symbol bloom_size i s t).buckets ≡ length t.buckets
unfolding add_symbol
add_symbol-length_buckets bloom_size i s t =
    elim (Bool-cases (get_or t.buckets s.gnu_bucket 0 == 0)) [
      | inl empty ↦ rw empty (length-set t.buckets s.gnu_bucket i)
      | inr full ↦ rw full refl
    ]

-- From the state behind `p`, the rest of the loop completes the chains.
pub add_symbols-chains :
    (bloom_size : ℕ) (front : List ℕ) (p : ResolvedSymbol) (ss : List ResolvedSymbol)
    (t : HashTables)
    → t.chains ≡ front ++ clear p ∷ replicate (length ss) 0
    → t.last ≡ some (p.gnu_bucket, length front + 1)
    → (get_or t.buckets p.gnu_bucket 0 == 0) ≡ false
    → InBuckets t.buckets ss
    → (close_last (add_symbols bloom_size (length front + 2) ss t)).chains
      ≡ front ++ chain_words (p ∷ ss)
unfolding add_symbols close_last chain_words
add_symbols-chains bloom_size front p [] t chains last full range =
    let index : length front + 1 - 1 ≡ length front = omega arith in
    rw (last, chains, index) (end_chain-append front [] p.gnu_hash_value)
add_symbols-chains bloom_size front p (s ∷ ss) t chains last full (r, range) =
    let front' = front ++ chain_before p s ∷ [] in
    let size : length front' ≡ length front + 1 = length-append front (chain_before p s ∷ []) in
    let t' = add_symbol bloom_size (length front + 2) s t in
    let zeros : List ℕ = replicate (length ss) 0 in
    let next : length front + 2 ≡ length front + 1 + 1 = omega arith in
    let pos : 0 < length front + 2 = omega arith in
    let count = add_symbol-length_buckets bloom_size (length front + 2) s t in
    let chains' : t'.chains ≡ front' ++ clear s ∷ zeros = next_chains zeros chains in
    let last' : t'.last ≡ some (s.gnu_bucket, length front' + 1) =
      unfold add_symbol in rw size (ap (λ k. some (s.gnu_bucket, k)) next) in
    let index : length front + 2 + 1 ≡ length front' + 2 = omega (arith, size) in
    rw index (
      add_symbols-chains bloom_size front' s ss t' chains' last'
        (add_symbol-bucket_full bloom_size (length front + 2) s t r pos) (rw count range)
      ∙ append_assoc front (chain_before p s ∷ []) (chain_words (s ∷ ss)))
  where
    next_chains :
        (zeros : List ℕ)
        → t.chains ≡ front ++ clear p ∷ 0 ∷ zeros
        → (add_symbol bloom_size (length front + 2) s t).chains
          ≡ (front ++ chain_before p s ∷ []) ++ clear s ∷ zeros
    next_chains zeros e =
        let size : length (front ++ chain_before p s ∷ []) ≡ length front + 1 =
          length-append front (chain_before p s ∷ []) in
        let index : length front + 2 - 1 ≡ length (front ++ chain_before p s ∷ []) =
          omega (arith, size) in
        unfold add_symbol in
        rw
          (
            last,
            e,
            close_chain-append t.buckets front (0 ∷ zeros) p s full,
            index,
            ← append_assoc front (chain_before p s ∷ []) (0 ∷ zeros),
          )
          (set-append (front ++ chain_before p s ∷ []) zeros 0 (clear s))
