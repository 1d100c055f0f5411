-- ===== src/GnuHash/Lookup.antt =====
-- The dynamic loader finds every dynamic symbol in the table. Its look-up is stated here as the loaders of the C
-- libraries do it: the Bloom filter, whose number of words they take for a power of two, the bucket, then the chain
-- up to the word whose lowest bit is set.
use mathlib.Core.Path.{subst}
use native.Mathlib.Nat.{mod-lt}
use binary_kernel_code_mappi.Prelude.{
  ℕ, suc, ◌+◌, ◌-◌, ◌/◌, ◌%◌, ◌^◌, ◌≤◌, ◌<◌, ◌≡◌, refl, sym, ap, ◌∙◌, inl, inr, Bool, true, false,
  not, ◌&&◌, List, [], ◌∷◌, map, Option, none, some, Text, length, get_elem?, get_elem?-drop,
  get_or, drop, text_eq, text_eq_refl, text_eq_sound, In, All, Bool-cases, ◌==◌, if◌then◌else◌,
  arith,
}
use Prim.Native.Nat.{bit_and}
use binary_kernel_code_mappi.Align.{bit_and-ones}
use binary_kernel_code_mappi.Symbols.{ResolvedSymbol}
use binary_kernel_code_mappi.GnuHash.{
  HashTables, gnu_hash, gnu_nbuckets, gnu_bloom_size, gnu_bloom_shift, hashed, hash_tables,
  reorder_symbols_for_hash,
}
use binary_kernel_code_mappi.GnuHash.Bits.{bit}
use binary_kernel_code_mappi.GnuHash.Order.{
  IsHashed, IsAscending, IsAscending-reorder, IsHashed-reorder, In-reorder,
}
use binary_kernel_code_mappi.GnuHash.Table.{clear, chain_before, chain_words, first_index}
use binary_kernel_code_mappi.GnuHash.Contents.{
  hash_tables-buckets, hash_tables-bloom, hash_tables-chains,
}

-- Along a chain from the index `i` on; the names are those of the symbol table, which runs beside the chains.
unfoldable pub scan_chain : Text → List ℕ → List Text → ℕ → Option ℕ
scan_chain name (c ∷ chains) (n ∷ names) i =
    let rest = scan_chain name chains names (i + 1) in
    if c / 2 == gnu_hash name / 2 && text_eq n name
    then some i
    else if c % 2 == 1
    then none
    else rest
scan_chain name _ _ i = none

unfoldable pub passes_filter : ℕ → List ℕ → ℕ → Bool
passes_filter bloom_size bloom h =
    let word = get_or bloom (bit_and (h / 64) (bloom_size - 1)) 0 in
    bit (h % 64) word == 1 && bit (h / 2 ^ gnu_bloom_shift % 64) word == 1

-- The index of the symbol in the symbol table, whose first symbol in the hash table has the index 1.
unfoldable pub loader_lookup : ℕ → ℕ → HashTables → List Text → Text → Option ℕ
unfolding scan_chain passes_filter
loader_lookup nbuckets bloom_size t names name =
    let first = get_or t.buckets (gnu_hash name % nbuckets) 0 in
    if passes_filter bloom_size t.bloom (gnu_hash name) && not (first == 0)
    then scan_chain name (drop (first - 1) t.chains) (drop (first - 1) names) first
    else none

abbrev pub names_of : List ResolvedSymbol → List Text
names_of = map (λ s. s.name)

-- A symbol stands at the index that was found, and it has the name.
abbrev Finds : Text → Option ℕ → List Text → ℕ → Type 0
Finds name found names i = (k : ℕ) × (found ≡ some (i + k)) × (get_elem? names k ≡ some name)

matches :
    (c : ℕ) (s u : ResolvedSymbol) (nbuckets : ℕ)
    → IsHashed nbuckets s
    → s.name ≡ u.name
    → c / 2 ≡ s.gnu_hash_value / 2
    → (c / 2 == gnu_hash u.name / 2 && text_eq s.name u.name) ≡ true
matches c s u nbuckets h e half =
    let hash : gnu_hash s.name ≡ gnu_hash u.name = ap gnu_hash e in
    let same : text_eq s.name u.name ≡ true = rw e (text_eq_refl u.name) in
    let v = h.0 in ground arith

Finds-here :
    (i : ℕ) (name : Text) (names : List Text) (n : Text)
    → n ≡ name
    → Finds name (some i) (n ∷ names) i
Finds-here i name names n e = (0, ap some (omega arith), ap some e)

Finds-later :
    (i : ℕ) (name : Text) (found : Option ℕ) (names : List Text) (n : Text)
    → Finds name found names (i + 1)
    → Finds name found (n ∷ names) i
Finds-later i name found names n (k, e, at) = (suc k, e ∙ ap some (omega arith), at)

In-All :
    (P : ResolvedSymbol → Type 0) (u : ResolvedSymbol) (ss : List ResolvedSymbol)
    → All P ss
    → In u ss
    → P u
In-All P u [] h m = absurd m
In-All P u (s ∷ ss) (p, h) (inl e) = subst P (sym e) p
In-All P u (s ∷ ss) (p, h) (inr m) = In-All P u ss h m

first_below :
    (u t : ResolvedSymbol) (ss : List ResolvedSymbol)
    → IsAscending (t ∷ ss)
    → In u (t ∷ ss)
    → t.gnu_bucket ≤ u.gnu_bucket
first_below u t ss (low, asc) (inl e) = rw e (omega arith)
first_below u t ss (low, asc) (inr m) = In-All (λ v. t.gnu_bucket ≤ v.gnu_bucket) u ss low m

-- From a symbol of the bucket of `u` on, the chain leads to `u`, or to an earlier symbol of its name.
scan_chain-Finds :
    (nbuckets i : ℕ) (u s : ResolvedSymbol) (ss : List ResolvedSymbol)
    → All (IsHashed nbuckets) (s ∷ ss)
    → IsAscending (s ∷ ss)
    → In u (s ∷ ss)
    → s.gnu_bucket ≡ u.gnu_bucket
    → Finds u.name
        (scan_chain u.name (chain_words (s ∷ ss)) (names_of (s ∷ ss)) i)
        (names_of (s ∷ ss))
        i
unfolding scan_chain chain_words
scan_chain-Finds nbuckets i u s [] (h, hs) asc (inl e) bucket =
    let name : s.name ≡ u.name = ap (λ v. v.name) (sym e) in
    rw (matches (clear s + 1) s u nbuckets h name (omega arith))
      (Finds-here i u.name [] s.name name)
scan_chain-Finds nbuckets i u s [] (h, hs) asc (inr m) bucket = absurd m
scan_chain-Finds nbuckets i u s (t ∷ ss) (h, hs) (low, asc) member bucket =
    elim (Bool-cases (text_eq s.name u.name)) [
      | inl same ↦
          let name = text_eq_sound s.name u.name same in
          rw (matches (chain_before s t) s u nbuckets h name (ground arith))
            (Finds-here i u.name (names_of (t ∷ ss)) s.name name)
      | inr other ↦
          let later = in_tail member other in
          let next : t.gnu_bucket ≡ u.gnu_bucket =
            let above = low.0 in let below = first_below u t ss asc later in omega arith in
          let together : (s.gnu_bucket == t.gnu_bucket) ≡ true = ground arith in
          let go_on : (clear s % 2 == 1) ≡ false = ground arith in
          let differ : (clear s / 2 == gnu_hash u.name / 2 && text_eq s.name u.name) ≡ false =
            ground arith in
          rw (together, differ, go_on)
            (Finds-later i u.name _ (names_of (t ∷ ss)) s.name
              (scan_chain-Finds nbuckets (i + 1) u t ss hs asc later next))
    ]
  where
    in_tail : In u (s ∷ t ∷ ss) → text_eq s.name u.name ≡ false → In u (t ∷ ss)
    in_tail (inl e) other =
        absurd
          (let z = text_eq_refl u.name in let y : s.name ≡ u.name = ap (λ v. v.name) (sym e) in cc)
    in_tail (inr m) other = m

drop-chain_words-cons :
    (n : ℕ) (s : ResolvedSymbol) (ss : List ResolvedSymbol)
    → drop (suc n) (chain_words (s ∷ ss)) ≡ drop n (chain_words ss)
unfolding chain_words
drop-chain_words-cons n s [] = refl
drop-chain_words-cons n s (t ∷ ss) = refl

-- The bucket leads to the chain on which `u` is found.
abbrev FindsFrom : ResolvedSymbol → List ResolvedSymbol → ℕ → ℕ → Type 0
FindsFrom u ss i f =
    (i ≤ f)
    × Finds u.name
        (scan_chain u.name (drop (f - i) (chain_words ss)) (drop (f - i) (names_of ss)) f)
        (drop (f - i) (names_of ss)) f

first_index-FindsFrom :
    (nbuckets i : ℕ) (u : ResolvedSymbol) (ss : List ResolvedSymbol)
    → All (IsHashed nbuckets) ss
    → IsAscending ss
    → In u ss
    → FindsFrom u ss i (first_index u.gnu_bucket i ss)
unfolding first_index
first_index-FindsFrom nbuckets i u [] h asc m = absurd m
first_index-FindsFrom nbuckets i u (s ∷ ss) h asc m =
    elim (Bool-cases (s.gnu_bucket == u.gnu_bucket)) [
      | inl same ↦
          let e : s.gnu_bucket ≡ u.gnu_bucket = ground arith in
          let start : i - i ≡ 0 = omega arith in
          rw same (omega arith, rw start (scan_chain-Finds nbuckets i u s ss h asc m e))
      | inr other ↦
          let rest = first_index-FindsFrom nbuckets (i + 1) u ss h.1 asc.1 (in_tail m other) in
          rw other (later (first_index u.gnu_bucket (i + 1) ss) rest)
    ]
  where
    in_tail : In u (s ∷ ss) → (s.gnu_bucket == u.gnu_bucket) ≡ false → In u ss
    in_tail (inl e) other = absurd (
        let y : s.gnu_bucket ≡ u.gnu_bucket = ap (λ v. v.gnu_bucket) (sym e) in
        let z : (s.gnu_bucket == u.gnu_bucket) ≡ true = ground arith in cc)
    in_tail (inr m') other = m'

    later : (f : ℕ) → FindsFrom u ss (i + 1) f → FindsFrom u (s ∷ ss) i f
    later f (le, found) =
        let step : f - i ≡ suc (f - (i + 1)) = omega arith in
        rw (step, drop-chain_words-cons (f - (i + 1)) s ss) (omega arith, found)

In-range :
    (nbuckets : ℕ) (ss : List ResolvedSymbol)
    → 0 < nbuckets
    → All (IsHashed nbuckets) ss
    → All (λ s. s.gnu_bucket < nbuckets) ss
In-range nbuckets [] pos h = tt
In-range nbuckets (s ∷ ss) pos (h, hs) =
    (rw h.1 (mod-lt (gnu_hash s.name) pos), In-range nbuckets ss pos hs)

abbrev pub IsPowerOfTwo : ℕ → Type 0
IsPowerOfTwo n = (k : ℕ) × (n ≡ 2 ^ k)

masked : (n w : ℕ) → IsPowerOfTwo n → bit_and w (n - 1) ≡ w % n
masked n w (k, e) = rw e (bit_and-ones w k)

-- For any positive sizes of the table.
hash_tables-found :
    (nbuckets bloom_size : ℕ) (u : ResolvedSymbol) (ss : List ResolvedSymbol)
    → 0 < nbuckets
    → 0 < bloom_size
    → IsPowerOfTwo bloom_size
    → All (IsHashed nbuckets) ss
    → IsAscending ss
    → In u ss
    → (j : ℕ) × (loader_lookup nbuckets bloom_size
          (hash_tables nbuckets bloom_size ss)
          (names_of ss)
          u.name
        ≡ some j)
      × (get_elem? (names_of ss) (j - 1) ≡ some u.name)
unfolding loader_lookup passes_filter
hash_tables-found nbuckets bloom_size u ss pos bloom_pos power h asc m =
    let range = In-range nbuckets ss pos h in
    let (value, bucket) = In-All (IsHashed nbuckets) u ss h m in
    let (low, high) = hash_tables-bloom nbuckets bloom_size ss range u bloom_pos m in
    let (le, (k, found, at)) = first_index-FindsFrom nbuckets 1 u ss h asc m in
    let f = first_index u.gnu_bucket 1 ss in
    let first = hash_tables-buckets nbuckets bloom_size ss range u.gnu_bucket in
    let low' = rw value at low in
    let high' = rw value at high in
    let full : (f == 0) ≡ false = ground arith in
    let index : f + k - 1 ≡ f - 1 + k = omega arith in
    (
      f + k,
      rw
          (
            masked bloom_size (gnu_hash u.name / 64) power,
            low',
            high',
            ← bucket,
            first,
            full,
            hash_tables-chains nbuckets bloom_size ss range,
          )
          found,
      rw index (sym (get_elem?-drop (f - 1) (names_of ss) k) ∙ at),
    )

-- Where the number of words of the Bloom filter is a power of two, as the loader takes it to be, the loader finds
-- every dynamic symbol: with the table that is built for the symbols in the order in which they are written, its
-- look-up of a symbol's name passes the Bloom filter, and returns an index at which a symbol of that name stands
-- in the symbol table.
pub loader_lookup-hash_tables :
    (symbols : List ResolvedSymbol) (u : ResolvedSymbol)
    → In u symbols
    → IsPowerOfTwo (gnu_bloom_size (length symbols))
    → (let nbuckets = gnu_nbuckets (length symbols) in
        let bloom_size = gnu_bloom_size (length symbols) in
        let ordered = reorder_symbols_for_hash nbuckets symbols in
        (j : ℕ) × (loader_lookup nbuckets bloom_size
            (hash_tables nbuckets bloom_size ordered)
            (names_of ordered)
            u.name
          ≡ some j)
        × (get_elem? (names_of ordered) (j - 1) ≡ some u.name))
unfolding gnu_nbuckets gnu_bloom_size hashed
loader_lookup-hash_tables symbols u m power =
    let nbuckets = gnu_nbuckets (length symbols) in
    let bloom_size = gnu_bloom_size (length symbols) in
    let pos : 0 < nbuckets = ground arith in
    let bloom_pos : 0 < bloom_size = ground arith in
    hash_tables-found nbuckets bloom_size (hashed nbuckets u)
      (reorder_symbols_for_hash nbuckets symbols) pos bloom_pos power
      (IsHashed-reorder nbuckets symbols) (IsAscending-reorder nbuckets symbols)
      (In-reorder nbuckets u symbols m)
