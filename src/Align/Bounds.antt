-- ===== src/Align/Bounds.antt =====
-- What `align` and `align_down` return at a power of two, and at the page size.
use native.Mathlib.Nat.{
  one-le-pow, mod-lt, mul-div-le, div-add-mod, le-div_iff_mul-le, div-lt_iff_lt-mul, mul-mod_right,
  mul-le-mul_left,
}
use binary_kernel_code_mappi.Prelude.{
  ℕ, suc, ◌+◌, ◌-◌, ◌*◌, ◌/◌, ◌%◌, ◌^◌, ◌≤◌, ◌<◌, ◌≡◌, ◌∙◌, ap, arith,
}
use binary_kernel_code_mappi.Align.{page_size, align, align_down, bit_and-ones}

pow_pos : (k : ℕ) → 1 ≤ 2 ^ k
pow_pos k = one-le-pow k 2 (omega arith)

pub align_pow : (v k : ℕ) → align v (2 ^ k) ≡ 2 ^ k * ((v + (2 ^ k - 1)) / 2 ^ k)
unfolding align
align_pow v k =
    let p = 2 ^ k in
    let x = v + p - 1 in
    let e : v + p - 1 ≡ v + (p - 1) = omega (arith, pow_pos k) in
    ground (arith, bit_and-ones (v + p - 1) k, div-add-mod (v + p - 1) p, pow_pos k, e)

pub align_down_pow : (v k : ℕ) → align_down v (2 ^ k) ≡ 2 ^ k * (v / 2 ^ k)
unfolding align_down
align_down_pow v k = ground (arith, bit_and-ones v k, div-add-mod v (2 ^ k), pow_pos k)

multiple : (m p : ℕ) → m % p ≡ 0 → p * (m / p) ≡ m
multiple m p h = omega (arith, div-add-mod m p)

-- At a power of two `align` returns the least multiple that is not below the value: it is a multiple, it is
-- at least the value, and it is at most every multiple that is at least the value.
pub align-least :
    (v k : ℕ)
    → (align v (2 ^ k) % 2 ^ k ≡ 0)
      × (v ≤ align v (2 ^ k))
      × ((m : ℕ) → m % 2 ^ k ≡ 0 → v ≤ m → align v (2 ^ k) ≤ m)
align-least v k =
    let p = 2 ^ k in
    let x = v + (p - 1) in
    let e : align v p ≡ p * (x / p) = align_pow v k in
    (
      ap (λ t. t % p) e ∙ mul-mod_right p (x / p),
      omega (arith, e, div-add-mod x p, mod-lt x (pow_pos k)),
      λ m h le.
          let j = m / p in
          let below : x < suc j * p = omega (arith, multiple m p h, pow_pos k) in
          let q : x / p < suc j = (div-lt_iff_lt-mul {x = x} {y = suc j} (pow_pos k)).1 below in
          let least : p * (x / p) ≤ p * j = mul-le-mul_left p (omega (arith, q)) in
          omega (arith, e, least, multiple m p h),
    )

-- At a power of two `align_down` returns the greatest multiple that is not above the value.
pub align_down-greatest :
    (v k : ℕ)
    → (align_down v (2 ^ k) % 2 ^ k ≡ 0)
      × (align_down v (2 ^ k) ≤ v)
      × ((m : ℕ) → m % 2 ^ k ≡ 0 → m ≤ v → m ≤ align_down v (2 ^ k))
align_down-greatest v k =
    let p = 2 ^ k in
    let e : align_down v p ≡ p * (v / p) = align_down_pow v k in
    (
      ap (λ t. t % p) e ∙ mul-mod_right p (v / p),
      omega (arith, e, mul-div-le v p),
      λ m h le.
          let j = m / p in
          let fits : j * p ≤ v = omega (arith, multiple m p h) in
          let q : j ≤ v / p = (le-div_iff_mul-le {x = j} {y = v} (pow_pos k)).1 fits in
          let greatest : p * j ≤ p * (v / p) = mul-le-mul_left p q in
          omega (arith, e, greatest, multiple m p h),
    )

-- The same at the page size, in the form that `omega` reads.
pub align_page : (v : ℕ) → align v page_size ≡ 4096 * ((v + 4095) / 4096)
align_page v = align_pow v 12

pub align_down_page : (v : ℕ) → align_down v page_size ≡ 4096 * (v / 4096)
align_down_page v = align_down_pow v 12
