-- ===== src/Align.antt =====
-- make_dll/build_PIC_so.py: `align` and `align_down`. Every address and size of the program is a
-- natural number, and `x & ~m` is `x` without the bits of `m`.
pub mod Bounds
use Prim.Native.Nat.{bit_and, digits, bit_and-bitwise}
use native.Mathlib.Nat.{
  pow-suc, one-le-pow, mod-lt, zero-mod, div-add-mod, add-mul-mod_self_left, mod-eq_of_lt,
}
use binary_kernel_code_mappi.Prelude.{
  ℕ, zero, suc, ◌+◌, ◌-◌, ◌*◌, ◌/◌, ◌%◌, ◌^◌, ◌≤◌, ◌<◌, min, ◌≡◌, ◌∙◌, sym, ap, refl, arith, ◌==◌,
  if◌then◌else◌,
}

abbrev pub page_size : ℕ
page_size = 0x1000

and_not : ℕ → ℕ → ℕ
and_not x m = x - bit_and x m

unfoldable pub align : ℕ → ℕ → ℕ
unfolding and_not
align value alignment =
    if alignment == 0 then value else and_not (value + alignment - 1) (alignment - 1)

unfoldable pub align_down : ℕ → ℕ → ℕ
unfolding and_not
align_down value alignment = if alignment == 0 then value else and_not value (alignment - 1)

mod_double : (a p : ℕ) → 0 < p → a % (2 * p) ≡ (a / 2 % p) * 2 + a % 2
mod_double a p h =
    let r = a / 2 % p in
    let q = a / 2 / p in
    let rest : r < p = mod-lt (a / 2) h in
    let whole : p * q + r ≡ a / 2 = div-add-mod (a / 2) p in
    let e : a ≡ (r * 2 + a % 2) + 2 * p * q = omega (arith, whole) in
    ap (λ x. x % (2 * p)) e
    ∙ add-mul-mod_self_left (r * 2 + a % 2) (2 * p) q
    ∙ mod-eq_of_lt (omega (arith, rest))

masked : (n a k : ℕ) → a ≤ n → digits (λ b. zero) min n a (2 ^ k - 1) ≡ a % 2 ^ k
masked zero zero k h = sym (zero-mod (2 ^ k))
masked zero (suc a) k h = absurd (omega arith)
masked (suc n) zero k h = sym (zero-mod (2 ^ k))
masked (suc n) (suc a) zero h = omega (arith, masked n (suc a / 2) 0 (omega arith))
masked (suc n) (suc a) (suc k) h =
    let p = 2 ^ k in
    let pos : 1 ≤ p = one-le-pow k 2 (omega arith) in
    let e : 2 ^ suc k ≡ 2 * p = omega (arith, pow-suc 2 k) in
    let half : (2 ^ suc k - 1) / 2 ≡ p - 1 = omega (arith, e) in
    let low : (2 ^ suc k - 1) % 2 ≡ 1 = omega (arith, e) in
    let ih = masked n (suc a / 2) k (omega arith) in
    rw (half, low, e) (omega (arith, ih, mod_double (suc a) p pos))

-- A mask of k ones keeps the k low binary digits.
pub bit_and-ones : (a k : ℕ) → bit_and a (2 ^ k - 1) ≡ a % 2 ^ k
bit_and-ones a k = bit_and-bitwise a (2 ^ k - 1) ∙ masked a a k (omega arith)
