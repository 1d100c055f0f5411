-- ===== src/Lkm/ExecTargets.antt =====
-- The names that core code refers to: what `exec_reloc_targets` collects.
use mathlib.Core.Path.{subst}
use binary_kernel_code_mappi.Prelude.{
  In-append_left, In-append_right, In-append_cases, ℕ, zero, suc, ◌+◌, ◌*◌, ◌<◌, ◌≡◌, ◌≢◌, refl,
  sym, ap, ◌∙◌, ◌↔◌, inl, inr, Bool, true, false, not, ◌&&◌, ◌==◌, ltb, List, [], ◌∷◌, ◌++◌, Option,
  none, some, Bytes, Text, length, text_eq, text_eq_iff, if◌then◌else◌, ok, raise_if, >>=-eq-ok, In,
  Bool-cases, arith,
}
use binary_kernel_code_mappi.Ko.{KoSection, KoSymbol, KoFile, is_undef, step_count}
use binary_kernel_code_mappi.Lkm.{struct_error, unexpected_entsize, truncated_relocations}
use binary_kernel_code_mappi.Lkm.Targets.{
  undefined_name, entry_symbol, entry_names, is_exec_rela, section_names, sections_names,
}

-- The symbol is undefined, and named `n`.
abbrev pub IsUndefined : Text → Option KoSymbol → Type 0
IsUndefined n o = (s : KoSymbol) × (o ≡ some s) × (is_undef s ≡ true) × (s.name ≡ n) × (n ≢ [])

-- One of `count` entries from an offset names an undefined symbol `n`.
abbrev pub HasEntry : Bytes → List KoSymbol → Text → ℕ → ℕ → Type 0
HasEntry blob symbols n count off =
    (i : ℕ) × (i < count) × IsUndefined n (entry_symbol blob symbols (off + i * 24))

-- A relocation section of core code has an entry for an undefined symbol `n`.
abbrev pub IsExecTarget : KoFile → Text → KoSection → Type 0
IsExecTarget ko n sec =
    (is_exec_rela ko.sections sec ≡ true)
    × HasEntry ko.blob ko.symbols n (step_count sec.sh_size) sec.sh_offset

pub one-In : (b : Bool) (n m : Text) → In n (if b then m ∷ [] else []) ↔ ((b ≡ true) × (n ≡ m))
one-In true n m =
    (λ h. elim h [ inl same ↦ (refl, same) | inr bad ↦ absurd bad ], λ (t, same). inl same)
one-In false n m = (λ h. absurd h, λ (bad, same). cc)

pub text_eq-ne : (n : Text) → (not (text_eq n []) ≡ true) ↔ (n ≢ [])
text_eq-ne n = ground (arith, text_eq_iff n [])

undefined_name-In : (o : Option KoSymbol) (n : Text) → In n (undefined_name o) ↔ IsUndefined n o
unfolding undefined_name
undefined_name-In none n = (λ h. absurd h, λ (s, bad, u, same, named). cc)
undefined_name-In (some s) n = (
  λ h.
      (let (both, same) = (one-In (is_undef s && not (text_eq s.name [])) n s.name).0 h in
        let (u, named) = and-true (is_undef s) _ both in
        (
          s,
          refl,
          u,
          sym same,
          subst (λ (x : Text). x ≢ []) (sym same) ((text_eq-ne s.name).0 named),
        )),
  λ (s', same, u, name, named).
      (let back : s' ≡ s = cc in
        let u' = subst (λ (x : KoSymbol). is_undef x ≡ true) back u in
        let name' = subst (λ (x : KoSymbol). x.name ≡ n) back name in
        (one-In (is_undef s && not (text_eq s.name [])) n s.name).1 (
          and-both u' ((text_eq-ne s.name).1 (subst (λ (x : Text). x ≢ []) (sym name') named)),
          sym name',
        )),
)
  where
    and-true : (a b : Bool) → (a && b) ≡ true → (a ≡ true) × (b ≡ true)
    and-true true b h = (refl, h)
    and-true false b h = cc

    and-both : {a b : Bool} → a ≡ true → b ≡ true → (a && b) ≡ true
    and-both {a} {b} x y = rw (x, y) refl

entry_names-In :
    (blob : Bytes) (symbols : List KoSymbol) (n : Text) (count off : ℕ) (names : List Text)
    → entry_names blob symbols off count ≡ ok names
    → In n names ↔ HasEntry blob symbols n count off
unfolding entry_names
entry_names-In blob symbols n zero off names h = (
  λ at. (let same : names ≡ [] = cc in absurd (subst (In n) same at)),
  λ (i, lt, x). (let bad : ⊥ = ground arith in absurd bad),
)
entry_names-In blob symbols n (suc count) off names h =
    let (_, fits, h1) = >>=-eq-ok (raise_if (ltb (length blob) (off + 24)) struct_error) _ h in
    let (rest, later, h2) = >>=-eq-ok (entry_names blob symbols (off + 24) count) _ h1 in
    let same : undefined_name (entry_symbol blob symbols off) ++ rest ≡ names = cc in
    let ih = entry_names-In blob symbols n count (off + 24) rest later in
    let now = undefined_name-In (entry_symbol blob symbols off) n in
    (
      λ at. elim (In-append_cases n _ rest (subst (In n) (sym same) at)) [
        | inl at ↦ (
          0,
          ground arith,
          subst (IsUndefined n) (ap (entry_symbol blob symbols) (ground arith)) (now.0 at),
        )
        | inr at ↦
            (let (i, lt, x) = ih.0 at in
              (
                suc i,
                ground arith,
                subst (IsUndefined n) (ap (entry_symbol blob symbols) (next off i)) x,
              ))
      ],
      λ (i, lt, x). subst (In n) same (from rest now ih i lt x),
    )
  where
    next : (off i : ℕ) → off + 24 + i * 24 ≡ off + suc i * 24
    next off i = ground arith

    from :
        (rest : List Text)
        → (In n (undefined_name (entry_symbol blob symbols off))
            ↔ IsUndefined n (entry_symbol blob symbols off))
        → (In n rest ↔ HasEntry blob symbols n count (off + 24))
        → (i : ℕ) → i < suc count
        → IsUndefined n (entry_symbol blob symbols (off + i * 24))
        → In n (undefined_name (entry_symbol blob symbols off) ++ rest)
    from rest now ih zero lt x =
        In-append_left n _ rest
          (now.1 (subst (IsUndefined n) (ap (entry_symbol blob symbols) (ground arith)) x))
    from rest now ih (suc i) lt x = In-append_right n _ rest (
        ih.1 (
          i,
          ground arith,
          subst (IsUndefined n) (ap (entry_symbol blob symbols) (sym (next off i))) x,
        ))

section_names-In :
    (ko : KoFile) (n : Text) (sec : KoSection) (names : List Text)
    → section_names ko sec ≡ ok names
    → In n names ↔ IsExecTarget ko n sec
unfolding section_names
section_names-In ko n sec names h = elim (Bool-cases (is_exec_rela ko.sections sec)) [
  | inr skipped ↦
      let same : ok [] ≡ ok names = rw (skipped, section_names) at h in
      let none_here : names ≡ [] = cc in
      (
        λ at. absurd (subst (In n) none_here at),
        λ (bad, x). (let apart : true ≡ false = sym bad ∙ skipped in cc),
      )
  | inl read ↦
      let checked = rw (read, section_names) at h in
      let (_, entries, h1) =
        >>=-eq-ok (raise_if (not (sec.sh_entsize == 24)) (unexpected_entsize sec.name)) _ checked in
      let (_, fits, h2) =
        >>=-eq-ok
          (raise_if (ltb (length ko.blob) (sec.sh_offset + sec.sh_size))
            (truncated_relocations sec.name))
          _ h1 in
      let found =
        entry_names-In ko.blob ko.symbols n (step_count sec.sh_size) sec.sh_offset names h2 in
      (λ at. (read, found.0 at), λ (_, x). found.1 x)
]

pub sections_names-In :
    (ko : KoFile) (n : Text) (secs : List KoSection) (names : List Text)
    → sections_names ko secs ≡ ok names
    → In n names ↔ ((sec : KoSection) × In sec secs × IsExecTarget ko n sec)
unfolding sections_names
sections_names-In ko n [] names h = (
  λ at. (let same : names ≡ [] = cc in absurd (subst (In n) same at)),
  λ (sec, bad, x). absurd bad,
)
sections_names-In ko n (sec ∷ secs) names h =
    let (first, one, h1) = >>=-eq-ok (section_names ko sec) _ h in
    let (rest, later, h2) = >>=-eq-ok (sections_names ko secs) _ h1 in
    let same : first ++ rest ≡ names = cc in
    (
      λ at. elim (In-append_cases n first rest (subst (In n) (sym same) at)) [
        | inl at ↦ (sec, inl refl, (section_names-In ko n sec first one).0 at)
        | inr at ↦ (let (s, l, x) = (sections_names-In ko n secs rest later).0 at in (s, inr l, x))
      ],
      λ (s, l, x). subst (In n) same (elim l [
        | inl it ↦
            In-append_left n first rest
              ((section_names-In ko n sec first one).1 (subst (IsExecTarget ko n) it x))
        | inr l ↦
            In-append_right n first rest ((sections_names-In ko n secs rest later).1 (s, l, x))
      ]),
    )
