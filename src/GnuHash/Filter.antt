-- ===== src/GnuHash/Filter.antt =====
-- The buckets and the Bloom filter that the loop leaves, and the tables as a whole.
use Prim.Native.Nat.{bit_or}
use native.Mathlib.Nat.{mod-lt}
use binary_kernel_code_mappi.Prelude.{
  ℕ, zero, suc, ◌+◌, ◌/◌, ◌%◌, ◌^◌, ◌≤◌, ◌<◌, ◌≡◌, refl, ◌∙◌, inl, inr, true, false, List, [], ◌∷◌,
  length, length-set, get_or, In, Bool-cases, ◌==◌, if◌then◌else◌, arith,
}
use binary_kernel_code_mappi.Symbols.{ResolvedSymbol}
use binary_kernel_code_mappi.GnuHash.{HashTables, bitmask, gnu_bloom_shift, add_symbol, add_symbols}
use binary_kernel_code_mappi.GnuHash.Bits.{bit, bit-bit_or, bit-pow}
use binary_kernel_code_mappi.GnuHash.Table.{
  get_or-set, first_index, InBuckets, add_symbol-length_buckets,
}

-- A bucket that is not empty stays; an empty one gets the index of its first symbol.
pub add_symbols-buckets :
    (bloom_size b i : ℕ) (ss : List ResolvedSymbol) (t : HashTables)
    → 0 < i
    → InBuckets t.buckets ss
    → get_or (add_symbols bloom_size i ss t).buckets b 0
      ≡ (if get_or t.buckets b 0 == 0 then first_index b i ss else get_or t.buckets b 0)
unfolding add_symbols first_index
add_symbols-buckets bloom_size b i [] t pos range = ground arith
add_symbols-buckets bloom_size b i (s ∷ ss) t pos (r, range) =
    let t' = add_symbol bloom_size i s t in
    let count = add_symbol-length_buckets bloom_size i s t in
    let rest = add_symbols-buckets bloom_size b (i + 1) ss t' (omega arith) (rw count range) in
    rest ∙ first
  where
    first :
        (if get_or (add_symbol bloom_size i s t).buckets b 0 == 0
          then first_index b (i + 1) ss
          else get_or (add_symbol bloom_size i s t).buckets b 0)
        ≡ (if get_or t.buckets b 0 == 0
            then (if s.gnu_bucket == b then i else first_index b (i + 1) ss)
            else get_or t.buckets b 0)
    first =
        unfold add_symbol in
        elim (Bool-cases (get_or t.buckets s.gnu_bucket 0 == 0)) [
          | inl empty ↦ rw empty (ground (arith, get_or-set t.buckets s.gnu_bucket b i 0 r))
          | inr full ↦ rw full (elim (Bool-cases (s.gnu_bucket == b)) [
            | inl same ↦
                let e : s.gnu_bucket ≡ b = ground arith in
                let full' : (get_or t.buckets b 0 == 0) ≡ false = rw e at full in rw full' refl
            | inr other ↦ rw other refl
          ])
        ]

-- The word of the filter for a hash has the bit `k`.
abbrev pub HasBit : ℕ → List ℕ → ℕ → ℕ → Type 0
HasBit bloom_size bloom h k = bit k (get_or bloom (h / 64 % bloom_size) 0) ≡ 1

bit_le : (k a : ℕ) → bit k a ≤ 1
unfolding bit
bit_le zero a = omega arith
bit_le (suc k) a = bit_le k (a / 2)

abbrev pub HasBothBits : ℕ → List ℕ → ℕ → Type 0
HasBothBits bloom_size bloom h =
    HasBit bloom_size bloom h (h % 64) × HasBit bloom_size bloom h (h / 2 ^ gnu_bloom_shift % 64)

bit-bitmask :
    (h : ℕ) → (bit (h % 64) (bitmask h) ≡ 1) × (bit (h / 2 ^ gnu_bloom_shift % 64) (bitmask h) ≡ 1)
unfolding bitmask
bit-bitmask h =
    let a = h % 64 in
    let b = h / 2 ^ gnu_bloom_shift % 64 in
    (
      omega (arith, bit-bit_or a (2 ^ a) (2 ^ b), bit-pow a, bit_le a (2 ^ b)),
      omega (arith, bit-bit_or b (2 ^ a) (2 ^ b), bit-pow b, bit_le b (2 ^ a)),
    )

-- A word of the filter after a symbol: what it had, and the mask of the symbol if it is its word.
add_symbol-word :
    (bloom_size i w : ℕ) (s : ResolvedSymbol) (t : HashTables)
    → 0 < bloom_size
    → length t.bloom ≡ bloom_size
    → get_or (add_symbol bloom_size i s t).bloom w 0 ≡ (
        if s.gnu_hash_value / 64 % bloom_size == w
        then bit_or (get_or t.bloom w 0) (bitmask s.gnu_hash_value)
        else get_or t.bloom w 0)
unfolding add_symbol
add_symbol-word bloom_size i w s t pos size =
    let word = s.gnu_hash_value / 64 % bloom_size in
    let inside : word < bloom_size = mod-lt (s.gnu_hash_value / 64) pos in
    let value = bit_or (get_or t.bloom word 0) (bitmask s.gnu_hash_value) in
    get_or-set t.bloom word w value 0 (rw size inside) ∙ elim (Bool-cases (word == w)) [
      | inl same ↦ let e : word ≡ w = ground arith in rw (same, e) refl
      | inr other ↦ rw other refl
    ]

add_symbol-keeps :
    (bloom_size i h k : ℕ) (s : ResolvedSymbol) (t : HashTables)
    → 0 < bloom_size
    → length t.bloom ≡ bloom_size
    → HasBit bloom_size t.bloom h k
    → HasBit bloom_size (add_symbol bloom_size i s t).bloom h k
add_symbol-keeps bloom_size i h k s t pos size on =
    let w = h / 64 % bloom_size in
    rw (add_symbol-word bloom_size i w s t pos size)
      (elim (Bool-cases (s.gnu_hash_value / 64 % bloom_size == w)) [
        | inl same ↦ rw same (
            omega (
              arith,
              on,
              bit-bit_or k (get_or t.bloom w 0) (bitmask s.gnu_hash_value),
              bit_le k (bitmask s.gnu_hash_value),
            ))
        | inr other ↦ rw other on
      ])

add_symbol-marks :
    (bloom_size i : ℕ) (s : ResolvedSymbol) (t : HashTables)
    → 0 < bloom_size
    → length t.bloom ≡ bloom_size
    → HasBothBits bloom_size (add_symbol bloom_size i s t).bloom s.gnu_hash_value
add_symbol-marks bloom_size i s t pos size =
    let h = s.gnu_hash_value in
    let w = h / 64 % bloom_size in
    let old = get_or t.bloom w 0 in
    let self : (w == w) ≡ true = ground arith in
    let (a, b) = bit-bitmask h in
    rw (add_symbol-word bloom_size i w s t pos size, self)
      (
        omega (arith, a, bit-bit_or (h % 64) old (bitmask h), bit_le (h % 64) old),
        omega (
          arith,
          b,
          bit-bit_or (h / 2 ^ gnu_bloom_shift % 64) old (bitmask h),
          bit_le (h / 2 ^ gnu_bloom_shift % 64) old,
        ),
      )

add_symbol-size :
    (bloom_size i : ℕ) (s : ResolvedSymbol) (t : HashTables)
    → length (add_symbol bloom_size i s t).bloom ≡ length t.bloom
unfolding add_symbol
add_symbol-size bloom_size i s t = length-set t.bloom _ _

add_symbols-keeps :
    (bloom_size i h k : ℕ) (ss : List ResolvedSymbol) (t : HashTables)
    → 0 < bloom_size
    → length t.bloom ≡ bloom_size
    → HasBit bloom_size t.bloom h k
    → HasBit bloom_size (add_symbols bloom_size i ss t).bloom h k
unfolding add_symbols
add_symbols-keeps bloom_size i h k [] t pos size on = on
add_symbols-keeps bloom_size i h k (s ∷ ss) t pos size on =
    add_symbols-keeps bloom_size (i + 1) h k ss (add_symbol bloom_size i s t) pos
      (add_symbol-size bloom_size i s t ∙ size) (add_symbol-keeps bloom_size i h k s t pos size on)

-- Both bits of every symbol are set.
pub add_symbols-marks :
    (bloom_size i : ℕ) (u : ResolvedSymbol) (ss : List ResolvedSymbol) (t : HashTables)
    → 0 < bloom_size
    → length t.bloom ≡ bloom_size
    → In u ss
    → HasBothBits bloom_size (add_symbols bloom_size i ss t).bloom u.gnu_hash_value
unfolding add_symbols
add_symbols-marks bloom_size i u [] t pos size h = absurd h
add_symbols-marks bloom_size i u (s ∷ ss) t pos size (inl e) =
    let size' = add_symbol-size bloom_size i s t ∙ size in
    let (a, b) = add_symbol-marks bloom_size i s t pos size in
    rw e (
      add_symbols-keeps bloom_size (i + 1) _ _ ss (add_symbol bloom_size i s t) pos size' a,
      add_symbols-keeps bloom_size (i + 1) _ _ ss (add_symbol bloom_size i s t) pos size' b,
    )
add_symbols-marks bloom_size i u (s ∷ ss) t pos size (inr h) =
    add_symbols-marks bloom_size (i + 1) u ss (add_symbol bloom_size i s t) pos
      (add_symbol-size bloom_size i s t ∙ size) h
