-- ===== src/Lkm/Emit/Rounds.antt =====
-- What one round of the loop over the relocations does to the table, and what it emits.
use mathlib.Core.Path.{subst}
use mathlib.Core.List.{append-nil}
use binary_kernel_code_mappi.Prelude.{
  or_raise-ok, ℕ, ◌≡◌, refl, sym, ap, ◌∙◌, ◌⊎◌, inl, inr, true, false, not, ◌==◌, List, [], ◌∷◌,
  ◌++◌, Option, none, some, Text, text_eq, text_eq_iff, lt→ltb, length, get_elem?, get_elem?-append,
  lt_of_get_elem?, lookup, lookup-insert, Result, ok, raise_if, or_raise, >>=-eq-ok, Bool-cases,
}
use binary_kernel_code_mappi.Krg.{KrgResolvedSymbol, KrgGraph, find}
use binary_kernel_code_mappi.Ko.{KoSection}
use binary_kernel_code_mappi.Ko.CoreLayout.{KoDataReloc}
use binary_kernel_code_mappi.Lkm.{
  LkmSymbol, LkmError, not_in_graph, unexpected_module, unsupported_type, empty_name,
  is_non_core_section_name,
}
use binary_kernel_code_mappi.Lkm.Targets.{Target}
use binary_kernel_code_mappi.Lkm.Nodes.{Setting, section_offset, is_owned}
use binary_kernel_code_mappi.Lkm.Table.{Table, append_symbol, need_shim}
use binary_kernel_code_mappi.Lkm.Emit.{
  LkmReloc, reloc_target, graph_symbol, find_undefined, place_symbol, new_symbol, reloc_for,
  use_new, use_target, emit,
}

-- A symbol of that name stands at the index.
abbrev pub IsAt : List LkmSymbol → ℕ → Text → Type 0
IsAt symbols idx name = (s : LkmSymbol) × (get_elem? symbols idx ≡ some s) × (s.name ≡ name)

-- `by_name` gives every name a symbol of that name.
abbrev pub IsIndexed : Table → Type 0
IsIndexed t = (name : Text) (idx : ℕ) → lookup name t.by_name ≡ some idx → IsAt t.symbols idx name

-- The graph finds a node under its own name.
abbrev pub FindsNames : KrgGraph → Type 0
FindsNames g = (name : Text) (node : KrgResolvedSymbol) → find g name ≡ some node → node.name ≡ name

pub ok_inj {ℓ} : {V : Type ℓ} {a b : V} → ◌≡◌ {A = Result LkmError V} (ok a) (ok b) → a ≡ b
ok_inj h = cc

some_inj : {a b : ℕ} → ◌≡◌ {A = Option ℕ} (some a) (some b) → a ≡ b
some_inj h = cc

pub get_elem?-last :
    (symbols : List LkmSymbol) (s : LkmSymbol)
    → get_elem? (symbols ++ s ∷ []) (length symbols) ≡ some s
get_elem?-last [] s = refl
get_elem?-last (x ∷ symbols) s = get_elem?-last symbols s

module _ (c : Setting) where
  -- The target is local, and its section has no place, or is one of those that are left out.
  abbrev pub IsSkipped : KoDataReloc → Type 0
  IsSkipped r =
      (r.undef ≡ false)
      × ((section_offset c.layout r.sym_shndx ≡ none)
          ⊎ ((s : KoSection) × (get_elem? c.ko.sections r.sym_shndx ≡ some s)
              × (is_non_core_section_name s.name ≡ true)))

  pub IsAt-append :
      (symbols more : List LkmSymbol) (idx : ℕ) (name : Text)
      → IsAt symbols idx name
      → IsAt (symbols ++ more) idx name
  IsAt-append symbols more idx name (s, at, same) = (
    s,
    get_elem?-append symbols more idx
        ∙ rw (lt→ltb idx (length symbols) (lt_of_get_elem? symbols idx at)) at,
    same,
  )

  -- A new symbol has the name of the target, where one is made.
  IsNewFor : KoDataReloc → Target → Option LkmSymbol → Type 0
  IsNewFor r t none = IsSkipped r
  IsNewFor r t (some s) = s.name ≡ t.name

  place_symbol-IsNewFor :
      (r : KoDataReloc) (t : Target) (count : ℕ) (sec : Option KoSection) (off : Option ℕ)
      → r.undef ≡ false
      → get_elem? c.ko.sections r.sym_shndx ≡ sec
      → section_offset c.layout r.sym_shndx ≡ off
      → IsNewFor r t (place_symbol c count t sec off)
  unfolding place_symbol IsNewFor
  place_symbol-IsNewFor r t count sec none local at placed = (local, inl placed)
  place_symbol-IsNewFor r t count none (some off) local at placed = refl
  place_symbol-IsNewFor r t count (some s) (some off) local at placed =
      elim (Bool-cases (is_non_core_section_name s.name)) [
        | inl left_out ↦ rw left_out (local, inr (s, at, left_out))
        | inr core ↦ rw core refl
      ]

  find_undefined-name :
      (count : ℕ) (name : Text) (s : LkmSymbol)
      → FindsNames c.graph
      → find_undefined c count name ≡ ok s
      → s.name ≡ name
  unfolding find_undefined graph_symbol
  find_undefined-name count name s finds found =
      let (node, at, h1) = >>=-eq-ok (or_raise (not_in_graph name) (find c.graph name)) _ found in
      let (_, owned, h2) =
        >>=-eq-ok (raise_if (not (is_owned c.owner node.module_name)) (unexpected_module node.name))
          _ h1 in
      ap (λ (x : LkmSymbol). x.name) (sym (ok_inj h2)) ∙ finds name node (or_raise-ok _ _ at)

  new_symbol-IsNewFor :
      (r : KoDataReloc) (t : Target) (count : ℕ) (o : Option LkmSymbol)
      → FindsNames c.graph
      → new_symbol c count r t ≡ ok o
      → IsNewFor r t o
  unfolding new_symbol IsNewFor
  new_symbol-IsNewFor r t count o finds h = elim (Bool-cases r.undef) [
    | inr local ↦
        subst (IsNewFor r t) (ok_inj (rw local at h))
          (place_symbol-IsNewFor r t count _ _ local refl refl)
    | inl undefined ↦
        let (s, found, h1) =
          >>=-eq-ok (find_undefined c count t.name) (λ s. ok (some s)) (rw undefined at h) in
        subst (IsNewFor r t) (ok_inj h1) (find_undefined-name count t.name s finds found)
  ]

  -- What one round emits for a target.
  unfoldable pub Outcome : List LkmSymbol → KoDataReloc → Target → Option LkmReloc → Type 0
  Outcome symbols r t none = IsSkipped r
  Outcome symbols r t (some e) =
      (e.offset ≡ r.offset) × (e.addend ≡ t.addend) × IsAt symbols e.symbol t.name

  pub record Round (r : KoDataReloc) (t : Target) (tab : Table) (o : Option LkmReloc) (u : Table)
      : Type 0 where
    pub indexed : IsIndexed u
    pub grown : (more : List LkmSymbol) × (u.symbols ≡ tab.symbols ++ more)
    pub outcome : Outcome u.symbols r t o

  pub IsIndexed-append_symbol :
      (s : LkmSymbol) (t : Table) → IsIndexed t → IsIndexed (append_symbol s t)
  unfolding append_symbol
  IsIndexed-append_symbol s t indexed name idx h = elim (Bool-cases (text_eq s.name name)) [
    | inl same ↦
        let last : some (length t.symbols) ≡ some idx =
          sym (rw same at (lookup-insert s.name name (length t.symbols) t.by_name)) ∙ h in
        subst (λ i. IsAt (t.symbols ++ s ∷ []) i name) (some_inj last)
          (s, get_elem?-last t.symbols s, (text_eq_iff s.name name).0 same)
    | inr other ↦ IsAt-append t.symbols (s ∷ []) idx name (
        indexed name idx
          (sym (rw other at (lookup-insert s.name name (length t.symbols) t.by_name)) ∙ h))
  ]

  use_new-Round :
      (r : KoDataReloc) (t : Target) (made : Option LkmSymbol) (tab : Table)
      → IsIndexed tab
      → IsNewFor r t made
      → Round r t tab (use_new c r t made tab).0 (use_new c r t made tab).1
  unfolding use_new reloc_for need_shim append_symbol IsNewFor Outcome
  use_new-Round r t none tab indexed new = record {
    indexed = indexed;
    grown = ([], sym (append-nil tab.symbols));
    outcome = new;
  }
  use_new-Round r t (some s) tab indexed new = record {
    indexed = IsIndexed-append_symbol s tab indexed;
    grown = (s ∷ [], refl);
    outcome = (refl, refl, (s, get_elem?-last tab.symbols s, new));
  }

  use_target-Round :
      (r : KoDataReloc) (t : Target) (found : Option ℕ) (tab : Table) (p : Option LkmReloc × Table)
      → FindsNames c.graph
      → IsIndexed tab
      → lookup t.name tab.by_name ≡ found
      → use_target c r t found tab ≡ ok p
      → Round r t tab p.0 p.1
  unfolding use_target reloc_for need_shim Outcome
  use_target-Round r t (some idx) tab p finds indexed at h =
      subst (λ (q : Option LkmReloc × Table). Round r t tab q.0 q.1) (ok_inj h)
        (record {
          indexed = indexed;
          grown = ([], sym (append-nil tab.symbols));
          outcome = (refl, refl, indexed t.name idx at);
        })
  use_target-Round r t none tab p finds indexed at h =
      let (made, new, h1) = >>=-eq-ok (new_symbol c (length tab.symbols) r t) _ h in
      subst (λ (q : Option LkmReloc × Table). Round r t tab q.0 q.1) (ok_inj h1)
        (use_new-Round r t made tab indexed
          (new_symbol-IsNewFor r t (length tab.symbols) made finds new))

  pub emit-Round :
      (r : KoDataReloc) (tab : Table) (p : Option LkmReloc × Table)
      → FindsNames c.graph
      → IsIndexed tab
      → emit c r tab ≡ ok p
      → Round r (reloc_target c.ko r) tab p.0 p.1
  unfolding emit
  emit-Round r tab p finds indexed h =
      let (_, typed, h1) =
        >>=-eq-ok (raise_if (not (r.r_type == 1)) (unsupported_type r.r_type)) _ h in
      let (_, named, h2) =
        >>=-eq-ok (raise_if (text_eq (reloc_target c.ko r).name []) (empty_name r.sym_idx)) _ h1 in
      use_target-Round r (reloc_target c.ko r) _ tab p finds indexed refl h2
