-- ===== src/Lkm/Anchor.antt =====
-- `infer_module_core_base`: the base agrees with the address of a symbol of the module.
use mathlib.Core.Path.{subst}
use binary_kernel_code_mappi.Prelude.{
  ℕ, ◌+◌, ◌≡◌, refl, ◌⊎◌, inl, inr, false, List, [], ◌∷◌, Option, none, some, Text, text_eq,
  text_eq_iff, In, Result, ok, err, Bool-cases, Option-cases, arith,
}
use binary_kernel_code_mappi.Prelude.Int.{ℤ, pos, negsuc, sub_ℕ, ◌+ℤ◌}
use binary_kernel_code_mappi.Ko.{KoSymbol, KoFile, is_undef, find_symbol}
use binary_kernel_code_mappi.Ko.CoreLayout.{KoCoreLayout}
use binary_kernel_code_mappi.Lkm.{LkmNode, LkmError, unanchored}
use binary_kernel_code_mappi.Lkm.Nodes.{section_offset, anchor_of, infer_module_core_base}

-- The module defines the node in a section of the layout, and from `base` on it lies at the node's address.
abbrev pub IsAnchor : KoFile → KoCoreLayout → ℤ → LkmNode → Type 0
IsAnchor ko layout base n =
    (idx : ℕ) × (s : KoSymbol) × (off : ℕ) × (find_symbol ko n.name ≡ some (idx, s))
    × (is_undef s ≡ false)
    × (section_offset layout s.st_shndx ≡ some off)
    × (base +ℤ pos (off + s.st_value) ≡ n.address)

sub_add : (a : ℤ) (k : ℕ) → a +ℤ sub_ℕ 0 k +ℤ pos k ≡ a
unfolding ◌+ℤ◌
sub_add (pos n) k = ground arith
sub_add (negsuc n) k = ground arith

module _ (ko : KoFile) (layout : KoCoreLayout) where
  anchor_of-IsAnchor :
      (n : LkmNode) (base : ℤ) → anchor_of ko layout n ≡ some base → IsAnchor ko layout base n
  unfolding anchor_of
  anchor_of-IsAnchor n base h = elim (Option-cases (find_symbol ko n.name)) [
    | inl missing ↦ (let bad = rw (missing, anchor_of) at h in cc)
    | inr ((idx, s), found) ↦
        (let h1 = rw (found, anchor_of) at h in
          elim (Bool-cases (is_undef s)) [
            | inl undefined ↦ (let bad = rw undefined at h1 in cc)
            | inr defined ↦ placed_at idx s found defined (rw defined at h1)
          ])
  ]
    where
      placed_at :
          (idx : ℕ) (s : KoSymbol)
          → find_symbol ko n.name ≡ some (idx, s)
          → is_undef s ≡ false
          → ◌≡◌ {A = Option ℤ}
              (elim (section_offset layout s.st_shndx) [
                | none ↦ none
                | some sec_off ↦ some (n.address +ℤ sub_ℕ 0 (sec_off + s.st_value))
              ])
              (some base)
          → IsAnchor ko layout base n
      placed_at idx s found defined h = elim (Option-cases (section_offset layout s.st_shndx)) [
        | inl unplaced ↦ (let bad = rw unplaced at h in cc)
        | inr (off, placed) ↦
            let same : some (n.address +ℤ sub_ℕ 0 (off + s.st_value)) ≡ some base =
              rw placed at h in
            let base_is : base ≡ n.address +ℤ sub_ℕ 0 (off + s.st_value) = cc in
            (idx, s, off, found, defined, placed, rw base_is (sub_add n.address (off + s.st_value)))
      ]

  -- A node that the layout does not place is no anchor.
  anchor_of-none :
      (n : LkmNode) → anchor_of ko layout n ≡ none → (base : ℤ) → ¬ IsAnchor ko layout base n
  unfolding anchor_of
  anchor_of-none n h base (idx, s, off, found, defined, placed, at) =
      let h1 = rw (found, anchor_of) at h in
      let h2 = rw defined at h1 in let h3 = rw placed at h2 in cc

  -- The result `r` is the base at which some node of the owner is anchored, or there is no such node.
  abbrev pub IsInferred : Text → List LkmNode → Result LkmError ℤ → Type 0
  IsInferred owner ns r =
      ((base : ℤ) × (r ≡ ok base)
        × ((n : LkmNode) × In n ns × (n.module_name ≡ owner) × IsAnchor ko layout base n))
      ⊎ ((r ≡ err unanchored)
          × ((n : LkmNode)
              → In n ns
              → n.module_name ≡ owner
              → (base : ℤ) → ¬ IsAnchor ko layout base n))

  IsInferred-skip :
      (owner : Text) (n : LkmNode) (ns : List LkmNode) (r : Result LkmError ℤ)
      → (n.module_name ≡ owner → (base : ℤ) → ¬ IsAnchor ko layout base n)
      → IsInferred owner ns r
      → IsInferred owner (n ∷ ns) r
  IsInferred-skip owner n ns r unplaced (inl (base, done, (m, l, own, at))) =
      inl (base, done, (m, inr l, own, at))
  IsInferred-skip owner n ns r unplaced (inr (failed, others)) = inr (
    failed,
    λ m l own. elim l [
      | inl same ↦ rw same (unplaced (subst (λ (x : LkmNode). x.module_name ≡ owner) same own))
      | inr l ↦ others m l own
    ],
  )

  -- If a base is inferred, some node of the owner, which the module defines in a section of the layout, lies at
  -- its own address from that base on; and if none is, the error is that the layout is not anchored, and no node
  -- of the owner is defined by the module in a section of the layout and lies at its own address from any base on.
  pub infer_module_core_base-IsInferred :
      (owner : Text) (ns : List LkmNode)
      → IsInferred owner ns (infer_module_core_base ko layout owner ns)
  unfolding infer_module_core_base
  infer_module_core_base-IsInferred owner [] = inr (refl, λ n bad own. absurd bad)
  infer_module_core_base-IsInferred owner (n ∷ ns) =
      let ih = infer_module_core_base-IsInferred owner ns in
      elim (Bool-cases (text_eq n.module_name owner)) [
        | inr other ↦ rw other (
            IsInferred-skip owner n ns (infer_module_core_base ko layout owner ns)
              (λ own. (let is_owner = (text_eq_iff n.module_name owner).1 own in cc)) ih)
        | inl own ↦ elim (Option-cases (anchor_of ko layout n)) [
          | inr (base, found) ↦
              let named = (text_eq_iff n.module_name owner).0 own in
              inl (
                base,
                rw own (rw found refl),
                (n, inl refl, named, anchor_of-IsAnchor n base found),
              )
          | inl none_here ↦ rw own (
              rw none_here (
                IsInferred-skip owner n ns (infer_module_core_base ko layout owner ns)
                  (λ own. anchor_of-none n none_here) ih))
        ]
      ]
