-- ===== src/Lkm/Shims.antt =====
-- Which names `build_lkm_so` leaves to the shim library.
use mathlib.Core.Path.{subst}
use binary_kernel_code_mappi.Prelude.{
  In-append_left, In-append_right, In-append_cases, In-select, ◌≡◌, ◌≢◌, refl, sym, ap, ◌∙◌, ◌⊎◌,
  ◌↔◌, inl, inr, ==_iff, Bool, true, false, not, List, [], ◌∷◌, Text, select, contains,
  contains_iff, text_eq, if◌then◌else◌, ok, In, arith,
}
use binary_kernel_code_mappi.Prelude.Int.{ℤ, pos, negsuc}
use binary_kernel_code_mappi.Ko.{KoSection, KoFile}
use binary_kernel_code_mappi.Ko.CoreLayout.{KoDataReloc}
use binary_kernel_code_mappi.Lkm.Targets.{
  describe_reloc_target, is_number, exec_reloc_targets, pointed_name, pointed_names, shim_targets,
}
use binary_kernel_code_mappi.Lkm.ExecTargets.{IsExecTarget, one-In, text_eq-ne, sections_names-In}

-- A relocation of the data is against an undefined symbol `n`, whatever its addend, or points at the start of `n`.
abbrev pub RefersTo : KoFile → Text → KoDataReloc → Type 0
RefersTo ko n r =
    ((r.undef ≡ true) × (r.symbol_name ≡ n) × (n ≢ []))
    ⊎ ((r.undef ≡ false)
        × ((describe_reloc_target ko r).name ≡ n)
        × ((describe_reloc_target ko r).addend ≡ pos 0))

not-contains : (names : List Text) (n : Text) → (not (contains names n) ≡ true) ↔ (¬ In n names)
not-contains names n = ground (arith, contains_iff names n)

is_number-pos : (a : ℤ) → (is_number a 0 ≡ true) ↔ (a ≡ pos 0)
unfolding is_number
is_number-pos (pos m) =
    (λ h. ap pos ((==_iff m 0).0 h), λ h. (let same : m ≡ 0 = cc in (==_iff m 0).1 same))
is_number-pos (negsuc m) = (λ h. cc, λ h. cc)

pointed_name-In :
    (ko : KoFile) (n : Text) (r : KoDataReloc) → In n (pointed_name ko r) ↔ RefersTo ko n r
unfolding pointed_name
pointed_name-In ko n r = go r.undef refl
  where
    apart : true ≢ false
    apart h = cc

    flipped :
        (b : Bool)
        → In n (if b then [] else r.symbol_name ∷ [])
        → In n (if not b then r.symbol_name ∷ [] else [])
    flipped true h = h
    flipped false h = h

    unflipped :
        (b : Bool)
        → In n (if not b then r.symbol_name ∷ [] else [])
        → In n (if b then [] else r.symbol_name ∷ [])
    unflipped true h = h
    unflipped false h = h

    go :
        (u : Bool)
        → r.undef ≡ u
        → In n (
            if u
            then (if text_eq r.symbol_name [] then [] else r.symbol_name ∷ [])
            else if is_number (describe_reloc_target ko r).addend 0
            then (describe_reloc_target ko r).name ∷ []
            else [])
          ↔ RefersTo ko n r
    go true undefined = (
      λ h.
          (let (named, same) =
              (one-In (not (text_eq r.symbol_name [])) n r.symbol_name).0
                (flipped (text_eq r.symbol_name []) h) in
            inl (
              undefined,
              sym same,
              subst (λ (x : Text). x ≢ []) (sym same) ((text_eq-ne _).0 named),
            )),
      λ h. elim h [
        | inr (bad, same, z) ↦ absurd (apart (sym undefined ∙ bad))
        | inl (u, same, named) ↦ unflipped (text_eq r.symbol_name []) (
            (one-In (not (text_eq r.symbol_name [])) n r.symbol_name).1 (
              (text_eq-ne r.symbol_name).1 (subst (λ (x : Text). x ≢ []) (sym same) named),
              sym same,
            ))
      ],
    )
    go false local = (
      λ h.
          (let (zero_addend, same) =
              (one-In (is_number (describe_reloc_target ko r).addend 0) n _).0 h in
            inr (local, sym same, (is_number-pos _).0 zero_addend)),
      λ h. elim h [
        | inl (bad, same, named) ↦ absurd (apart (sym bad ∙ local))
        | inr (l, same, zero_addend) ↦
            (one-In (is_number (describe_reloc_target ko r).addend 0) n _).1
              ((is_number-pos _).1 zero_addend, sym same)
      ],
    )

pointed_names-In :
    (ko : KoFile) (n : Text) (rs : List KoDataReloc)
    → In n (pointed_names ko rs) ↔ ((r : KoDataReloc) × In r rs × RefersTo ko n r)
unfolding pointed_names
pointed_names-In ko n [] = (λ h. absurd h, λ (r, bad, at). absurd bad)
pointed_names-In ko n (r ∷ rs) = (
  λ h. elim (In-append_cases n (pointed_name ko r) (pointed_names ko rs) h) [
    | inl now ↦ (r, inl refl, (pointed_name-In ko n r).0 now)
    | inr later ↦ (let (q, l, at) = (pointed_names-In ko n rs).0 later in (q, inr l, at))
  ],
  λ (q, l, at). elim l [
    | inl same ↦
        In-append_left n (pointed_name ko r) (pointed_names ko rs)
          ((pointed_name-In ko n r).1 (subst (RefersTo ko n) same at))
    | inr l ↦
        In-append_right n (pointed_name ko r) (pointed_names ko rs)
          ((pointed_names-In ko n rs).1 (q, l, at))
  ],
)

-- Where the relocations of core code are read, a name is left to the shim library exactly if shim.txt lists it, no
-- relocation of core code refers to an undefined symbol of that name, and it is not requested or a relocation of
-- the data refers to it: one against an undefined symbol of that name, whatever its addend, or one that points at
-- the start of a local target of that name.
pub shim_targets-In :
    (ko : KoFile) (shims requested exec_targets : List Text) (relocs : List KoDataReloc)
    → exec_reloc_targets ko ≡ ok exec_targets
    → (n : Text)
    → In n (shim_targets shims requested (pointed_names ko relocs) exec_targets) ↔ (
        In n shims
        × ¬ ((sec : KoSection) × In sec ko.sections × IsExecTarget ko n sec)
        × (¬ In n requested ⊎ ((r : KoDataReloc) × In r relocs × RefersTo ko n r)))
unfolding shim_targets
shim_targets-In ko shims requested exec_targets relocs read n =
    let executed = sections_names-In ko n ko.sections exec_targets read in
    let pointed = pointed_names-In ko n relocs in
    let kept = In-select (λ m. not (contains (select (contains shims) exec_targets) m)) n in
    let forced = In-select (λ m. not (contains requested m)) n shims in
    let relocated = In-select (contains shims) n (pointed_names ko relocs) in
    let conflicting = In-select (contains shims) n exec_targets in
    (
      λ at.
          (let (l, clear) = (kept _).0 at in
            let apart = (not-contains _ n).0 clear in
            elim (In-append_cases n (select (λ m. not (contains requested m)) shims) _ l) [
              | inl l ↦
                  (let (listed, unasked) = forced.0 l in
                    (
                      listed,
                      λ e. apart (conflicting.1 (executed.1 e, (contains_iff shims n).1 listed)),
                      inl ((not-contains requested n).0 unasked),
                    ))
              | inr l ↦
                  (let (named, listed) = relocated.0 l in
                    (
                      (contains_iff shims n).0 listed,
                      λ e. apart (conflicting.1 (executed.1 e, listed)),
                      inr (pointed.0 named),
                    ))
            ]),
      λ (listed, apart, why). (kept _).1 (
        elim why [
          | inl unasked ↦
              In-append_left n _ _ (forced.1 (listed, (not-contains requested n).1 unasked))
          | inr r ↦
              In-append_right n (select (λ m. not (contains requested m)) shims) _
                (relocated.1 (pointed.1 r, (contains_iff shims n).1 listed))
        ],
        (not-contains _ n).1 (λ c. apart (executed.0 (conflicting.0 c).0)),
      ),
    )
