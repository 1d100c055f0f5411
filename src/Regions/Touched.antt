-- ===== src/Regions/Touched.antt =====
-- The pages that symbols and ranges touch, described by their addresses.
use binary_kernel_code_mappi.Prelude.{
  ℕ, ◌+◌, ◌/◌, ◌*◌, ◌≤◌, ◌<◌, ◌≡◌, refl, ◌⊎◌, ◌↔◌, inl, inr, max, List, [], ◌∷◌, ◌++◌, In, ◌==◌,
  All, Bool-cases, arith,
}
use mathlib.Core.Path.{subst}
use binary_kernel_code_mappi.Align.Bounds.{align_page, align_down_page}
use binary_kernel_code_mappi.Symbols.{ResolvedSymbol}
use binary_kernel_code_mappi.Regions.{
  Interval, page_span, symbol_intervals, range_intervals, intervals,
}
use binary_kernel_code_mappi.Regions.Merging.{IsCovered}

-- The page of `x` has an address from `first` on and below `last`; with none between them, `first` counts.
abbrev pub TouchesPage : ℕ → ℕ → ℕ → Type 0
TouchesPage first last x =
    (y : ℕ) × (first ≤ y) × (y < max last (first + 1)) × (y / 4096 ≡ x / 4096)

-- A symbol has one byte at least.
abbrev pub IsTouched : List ResolvedSymbol → List Interval → ℕ → Type 0
IsTouched symbols ranges x =
    ((s : ResolvedSymbol) × In s symbols × TouchesPage s.address (s.address + s.size) x)
    ⊎ ((r : Interval) × In r ranges × TouchesPage r.0 r.1 x)

-- A span covers an address exactly if what it spans touches the address's page.
pub page_span-TouchesPage :
    (first last x : ℕ)
    → first ≤ last
    → (((page_span first last).0 ≤ x) × (x < (page_span first last).1)) ↔ TouchesPage first last x
unfolding page_span
page_span-TouchesPage first last x h = (
  λ (low, high). elim (Bool-cases (x / 4096 == first / 4096)) [
    | inl same ↦ (first, omega arith, omega arith, ground arith)
    | inr other ↦
        let down = align_down_page first in
        let up = align_page last in
        let above : first / 4096 < x / 4096 = ground (arith, down) in
        let below : x / 4096 * 4096 < last = ground (arith, down, up) in
        (x / 4096 * 4096, omega arith, omega arith, omega arith)
  ],
  λ (y, low, high, same). (
    omega (arith, align_down_page first),
    ground (arith, align_down_page first, align_page last),
  ),
)

pub symbol_intervals-IsTouched :
    (syms : List ResolvedSymbol) (x : ℕ)
    → IsCovered x (symbol_intervals syms)
      ↔ ((s : ResolvedSymbol) × In s syms × TouchesPage s.address (s.address + s.size) x)
unfolding symbol_intervals
symbol_intervals-IsTouched [] x = (λ h. absurd h, λ (s, bad, t). absurd bad)
symbol_intervals-IsTouched (s ∷ syms) x =
    let now = page_span-TouchesPage s.address (s.address + max s.size 1) x (omega arith) in
    let later = symbol_intervals-IsTouched syms x in
    (
      λ h. elim h [
        | inl on ↦
            (let (y, low, high, same) = now.0 on in (s, inl refl, (y, low, omega arith, same)))
        | inr rest ↦ (let (t, at, touch) = later.0 rest in (t, inr at, touch))
      ],
      λ (t, at, touch). elim at [
        | inl same ↦
            let (y, low, high, page) =
              subst (λ (u : ResolvedSymbol). TouchesPage u.address (u.address + u.size) x) same
                touch in
            inl (now.1 (y, low, omega arith, page))
        | inr at ↦ inr (later.1 (t, at, touch))
      ],
    )

pub range_intervals-IsTouched :
    (ranges : List Interval) (x : ℕ)
    → All (λ (r : Interval). r.0 ≤ r.1) ranges
    → IsCovered x (range_intervals ranges) ↔ ((r : Interval) × In r ranges × TouchesPage r.0 r.1 x)
unfolding range_intervals
range_intervals-IsTouched [] x h = (λ h. absurd h, λ (s, bad, t). absurd bad)
range_intervals-IsTouched ((a, b) ∷ ranges) x (le, h) =
    let now = page_span-TouchesPage a b x le in
    let later = range_intervals-IsTouched ranges x h in
    (
      λ h. elim h [
        | inl on ↦ ((a, b), inl refl, now.0 on)
        | inr rest ↦ (let (t, at, touch) = later.0 rest in (t, inr at, touch))
      ],
      λ (t, at, touch). elim at [
        | inl same ↦ inl (now.1 (subst (λ (u : Interval). TouchesPage u.0 u.1 x) same touch))
        | inr at ↦ inr (later.1 (t, at, touch))
      ],
    )

IsCovered-append :
    (x : ℕ) (is js : List Interval) → IsCovered x (is ++ js) ↔ (IsCovered x is ⊎ IsCovered x js)
IsCovered-append x [] js = (λ h. inr h, λ h. elim h [ inl bad ↦ absurd bad | inr h ↦ h ])
IsCovered-append x ((s, e) ∷ is) js =
    let rest = IsCovered-append x is js in
    (
      λ h. elim h [
        | inl on ↦ inl (inl on)
        | inr h ↦ elim (rest.0 h) [ inl h ↦ inl (inr h) | inr h ↦ inr h ]
      ],
      λ h. elim h [
        | inl (inl on) ↦ inl on
        | inl (inr h) ↦ inr (rest.1 (inl h))
        | inr h ↦ inr (rest.1 (inr h))
      ],
    )

pub intervals-IsTouched :
    (symbols : List ResolvedSymbol) (ranges : List Interval) (x : ℕ)
    → All (λ (r : Interval). r.0 ≤ r.1) ranges
    → IsCovered x (intervals symbols ranges) ↔ IsTouched symbols ranges x
unfolding intervals
intervals-IsTouched symbols ranges x h =
    let both = IsCovered-append x (symbol_intervals symbols) (range_intervals ranges) in
    let left = symbol_intervals-IsTouched symbols x in
    let right = range_intervals-IsTouched ranges x h in
    (
      λ c. elim (both.0 c) [ inl c ↦ inl (left.0 c) | inr c ↦ inr (right.0 c) ],
      λ t. elim t [ inl t ↦ both.1 (inl (left.1 t)) | inr t ↦ both.1 (inr (right.1 t)) ],
    )
