-- ===== src/Regions/Names.antt =====
-- The names of the regions are pairwise distinct, so that `region_by_name` holds all of them.
use binary_kernel_code_mappi.Prelude.{
  ℕ, zero, suc, ◌+◌, ◌-◌, ◌*◌, ◌/◌, ◌%◌, ◌≤◌, ◌<◌, ◌≡◌, refl, sym, ap, ◌∙◌, inl, inr, false, List,
  [], ◌∷◌, ◌++◌, map, Text, contains, text_eq, text_eq_sound, IsDistinct, Bool-cases, ltb, arith,
}
use binary_kernel_code_mappi.Symbols.{ResolvedSymbol}
use binary_kernel_code_mappi.TextOps.{digits_onto, decimal}
use binary_kernel_code_mappi.Regions.{
  Region, Interval, sort_intervals, intervals, merge, numbered_regions, name_regions, build_regions,
}

-- The number that decimal digits stand for, after those read so far.
read_decimal : ℕ → Text → ℕ
read_decimal n [] = n
read_decimal n (c ∷ s) = read_decimal (n * 10 + (c - 48)) s

read_decimal-digits_onto :
    (fuel n : ℕ) (acc : Text)
    → n < fuel
    → read_decimal 0 (digits_onto fuel n acc) ≡ read_decimal n acc
unfolding read_decimal digits_onto
read_decimal-digits_onto zero n acc h = absurd (omega arith)
read_decimal-digits_onto (suc fuel) n acc h = elim (Bool-cases (ltb n 10)) [
  | inl small ↦
      let e : 0 * 10 + (48 + n - 48) ≡ n = omega arith in rw small (ap (λ k. read_decimal k acc) e)
  | inr large ↦
      let ten : 10 ≤ n = ground arith in
      let e : n / 10 * 10 + (48 + n % 10 - 48) ≡ n = omega arith in
      rw large (
        read_decimal-digits_onto fuel (n / 10) ((48 + n % 10) ∷ acc) (omega arith)
        ∙ ap (λ k. read_decimal k acc) e)
]

-- Different numbers have different digits.
decimal-injective : (m n : ℕ) → decimal m ≡ decimal n → m ≡ n
unfolding decimal read_decimal
decimal-injective m n h =
    sym (read_decimal-digits_onto (suc m) m [] (omega arith))
    ∙ ap (read_decimal 0) h
    ∙ read_decimal-digits_onto (suc n) n [] (omega arith)

append-cancel_left : (base s t : Text) → base ++ s ≡ base ++ t → s ≡ t
append-cancel_left [] s t h = h
append-cancel_left (c ∷ base) s t h = append-cancel_left base s t cc

abbrev pub names : List Region → List Text
names = map (λ r. r.name)

numbered_regions-new :
    (base : Text) (i j : ℕ) (is : List Interval)
    → i < j
    → contains (names (numbered_regions base j is)) (base ++ decimal (i + 1)) ≡ false
unfolding numbered_regions contains
numbered_regions-new base i j [] h = refl
numbered_regions-new base i j ((s, e) ∷ is) h =
    elim (Bool-cases (text_eq (base ++ decimal (j + 1)) (base ++ decimal (i + 1)))) [
      | inl same ↦
          let k =
            decimal-injective (j + 1) (i + 1)
              (append-cancel_left base _ _ (text_eq_sound _ _ same)) in
          absurd (omega arith)
      | inr other ↦ rw other (numbered_regions-new base i (j + 1) is (omega arith))
    ]

IsDistinct-numbered_regions :
    (base : Text) (idx : ℕ) (is : List Interval) → IsDistinct (names (numbered_regions base idx is))
unfolding numbered_regions
IsDistinct-numbered_regions base idx [] = tt
IsDistinct-numbered_regions base idx ((s, e) ∷ is) = (
  numbered_regions-new base idx (idx + 1) is (omega arith),
  IsDistinct-numbered_regions base (idx + 1) is,
)

IsDistinct-name_regions :
    (base : Text) (is : List Interval) → IsDistinct (names (name_regions base is))
unfolding name_regions contains
IsDistinct-name_regions base [] = IsDistinct-numbered_regions base 0 []
IsDistinct-name_regions base ((s, e) ∷ []) = (refl, tt)
IsDistinct-name_regions base (i ∷ j ∷ is) = IsDistinct-numbered_regions base 0 (i ∷ j ∷ is)

-- The regions of one kind have pairwise distinct names.
pub build_regions-names :
    (symbols : List ResolvedSymbol) (base_name : Text) (extra_ranges : List Interval)
    → IsDistinct (names (build_regions symbols base_name extra_ranges))
unfolding build_regions
build_regions-names symbols base_name extra_ranges =
    IsDistinct-name_regions base_name (merge (sort_intervals (intervals symbols extra_ranges)))
