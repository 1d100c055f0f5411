-- ===== src/GnuHash/Bits.antt =====
-- Single bits of `|` and of `1 << k`.
use Prim.Native.Nat.{bit_or, digits, bit_or-bitwise}
use native.Mathlib.Nat.{pow-suc}
use binary_kernel_code_mappi.Prelude.{
  ℕ, zero, suc, ◌+◌, ◌*◌, ◌/◌, ◌%◌, ◌^◌, ◌≤◌, max, ◌≡◌, refl, ap, ◌∙◌, arith,
}

-- `(a >> k) & 1`
unfoldable pub bit : ℕ → ℕ → ℕ
bit zero a = a % 2
bit (suc k) a = bit k (a / 2)

abbrev or_digits : ℕ → ℕ → ℕ → ℕ
or_digits n a b = digits (λ y. y) max n a b

bit-zero : (k : ℕ) → bit k 0 ≡ 0
unfolding bit
bit-zero zero = refl
bit-zero (suc k) = bit-zero k

bit-or_digits : (n k a b : ℕ) → a ≤ n → bit k (or_digits n a b) ≡ max (bit k a) (bit k b)
unfolding bit
bit-or_digits zero k zero b h = rw (bit-zero k) (omega arith)
bit-or_digits zero k (suc a) b h = absurd (omega arith)
bit-or_digits (suc n) k zero b h = rw (bit-zero k) (omega arith)
bit-or_digits (suc n) zero (suc a) b h = omega arith
bit-or_digits (suc n) (suc k) (suc a) b h =
    let rest = or_digits n (suc a / 2) (b / 2) in
    let low = max (suc a % 2) (b % 2) in
    let half : (rest * 2 + low) / 2 ≡ rest = omega arith in
    rw half (bit-or_digits n k (suc a / 2) (b / 2) (omega arith))

pub bit-bit_or : (k a b : ℕ) → bit k (bit_or a b) ≡ max (bit k a) (bit k b)
bit-bit_or k a b = ap (bit k) (bit_or-bitwise a b) ∙ bit-or_digits a k a b (omega arith)

pub bit-pow : (k : ℕ) → bit k (2 ^ k) ≡ 1
unfolding bit
bit-pow zero = refl
bit-pow (suc k) =
    let half : 2 ^ suc k / 2 ≡ 2 ^ k = omega (arith, pow-suc 2 k) in rw half (bit-pow k)

or_digits-zero : (n a : ℕ) → a ≤ n → or_digits n a 0 ≡ a
or_digits-zero zero zero h = refl
or_digits-zero zero (suc a) h = absurd (omega arith)
or_digits-zero (suc n) zero h = refl
or_digits-zero (suc n) (suc a) h = omega (arith, or_digits-zero n (suc a / 2) (omega arith))

pub bit_or-one : (a : ℕ) → bit_or a 1 ≡ a / 2 * 2 + 1
bit_or-one zero = refl
bit_or-one (suc a) =
    bit_or-bitwise (suc a) 1 ∙ omega (arith, or_digits-zero a (suc a / 2) (omega arith))
