-- ===== src/Resolve/Symbols.antt =====
-- What the resolved symbols are.
use mathlib.Core.Path.{subst}
use binary_kernel_code_mappi.Prelude.{
  ℕ, ◌≡◌, refl, ap, inl, inr, Bool, true, false, not, ◌&&◌, List, [], ◌∷◌, ◌++◌, Text, length, In,
  All, All-append, Bool-cases, contains, text_eq, IsDistinct, IsDistinct-concat, ◌==◌,
  if◌then◌else◌, Result, ok, err, raise_if, or_raise, >>=-eq-ok,
}
use binary_kernel_code_mappi.Krg.{KrgResolvedSymbol, KrgGraph, find}
use binary_kernel_code_mappi.Krg.Closure.{
  WalkError, key_error, index_error, out_of_fuel, flagged, closure_flags, closure,
}
use binary_kernel_code_mappi.Symbols.{ResolvedSymbol, stt_func, stt_object}
use binary_kernel_code_mappi.Resolve.{
  shim, module_to_lib, module_for_entry, dependency_shim_symbols, not_in_graph, none_found,
  check_owner, Resolving, resolved_names, Request, symbol_for, add_entry, add_entries, miss,
  check_resolved, add_closure, add_requested, Resolution, resolve_from, resolve_requested_symbols,
}

-- The symbol is that of a node: its address, its size and its kind; it is exported if its name is requested; and
-- it is defined unless its module is the shim library.
pub record IsOf (g : KrgGraph) (requested_names shims : List Text) (owner_module : Text)
    (s : ResolvedSymbol) : Type 0 where
  pub entry : KrgResolvedSymbol
  pub node : In entry g.nodes
  pub name : s.name ≡ entry.name
  pub address : s.address ≡ entry.address
  pub size : s.size ≡ entry.size
  pub kind : s.st_type ≡ (if entry.kind == 0 then stt_func else stt_object)
  pub module_name : s.module_name ≡ module_for_entry shims entry
  pub defined : s.defined ≡ not (text_eq s.module_name shim)
  pub exported : s.exported ≡ contains requested_names s.name
  pub source : s.source ≡ module_to_lib owner_module

module _ (g : KrgGraph) (r : Request) where
  abbrev pub AreOf : List ResolvedSymbol → Type 0
  AreOf = All (IsOf g r.requested_names r.shims r.owner_module)

  -- What the loops keep.
  record IsState (s : Resolving) : Type 0 where
    pub distinct : IsDistinct (resolved_names s.ordered)
    pub symbols : AreOf s.ordered

  symbol_for-IsOf :
      (count : ℕ) (entry : KrgResolvedSymbol)
      → In entry g.nodes
      → IsOf g r.requested_names r.shims r.owner_module (symbol_for r count entry)
  unfolding symbol_for
  symbol_for-IsOf count entry node = record {
    entry = entry;
    node = node;
    name = refl;
    address = refl;
    size = refl;
    kind = refl;
    module_name = refl;
    defined = refl;
    exported = refl;
    source = refl;
  }

  resolved_names-append :
      (ss ts : List ResolvedSymbol)
      → resolved_names (ss ++ ts) ≡ resolved_names ss ++ resolved_names ts
  resolved_names-append [] ts = refl
  resolved_names-append (s ∷ ss) ts = ap (λ ns. s.name ∷ ns) (resolved_names-append ss ts)

  symbol_for-name :
      (count : ℕ) (entry : KrgResolvedSymbol) → (symbol_for r count entry).name ≡ entry.name
  unfolding symbol_for
  symbol_for-name count entry = refl

  add_entry-IsState :
      (entry : KrgResolvedSymbol) (s : Resolving)
      → In entry g.nodes
      → IsState s
      → IsState (add_entry r entry s)
  unfolding add_entry
  add_entry-IsState entry s node is =
      elim (Bool-cases (contains (resolved_names s.ordered) entry.name)) [
        | inl old ↦ record { distinct = rw old is.distinct; symbols = rw old is.symbols }
        | inr new ↦
            let added = symbol_for r (length s.ordered) entry in
            record {
              distinct =
                  rw (new, resolved_names-append s.ordered (added ∷ []))
                    (IsDistinct-concat (resolved_names s.ordered) added.name is.distinct
                      (rw (symbol_for-name (length s.ordered) entry) new));
              symbols = rw new (
                  All-append _ s.ordered (added ∷ []) is.symbols
                    (symbol_for-IsOf (length s.ordered) entry node, tt));
            }
      ]

  add_entries-IsState :
      (entries : List KrgResolvedSymbol) (s : Resolving)
      → All (λ e. In e g.nodes) entries
      → IsState s
      → IsState (add_entries r entries s)
  unfolding add_entries
  add_entries-IsState [] s nodes is = is
  add_entries-IsState (entry ∷ entries) s (node, nodes) is =
      add_entries-IsState entries (add_entry r entry s) nodes (add_entry-IsState entry s node is)

  check_resolved-IsState :
      (name : Text) (s : Resolving) → IsState s → IsState (check_resolved name s)
  unfolding check_resolved miss
  check_resolved-IsState name s is = elim (Bool-cases (contains (resolved_names s.ordered) name)) [
    | inl on ↦ rw on is
    | inr off ↦ rw off (record { distinct = is.distinct; symbols = is.symbols })
  ]

  later :
      (m : KrgResolvedSymbol) (ns es : List KrgResolvedSymbol)
      → All (λ e. In e ns) es
      → All (λ e. In e (m ∷ ns)) es
  later m ns [] h = tt
  later m ns (e ∷ es) (h, hs) = (inr h, later m ns es hs)

  flagged_nodes :
      (nodes : List KrgResolvedSymbol) (flags : List Bool)
      → All (λ e. In e nodes) (flagged nodes flags)
  unfolding flagged
  flagged_nodes [] flags = tt
  flagged_nodes (n ∷ nodes) [] = tt
  flagged_nodes (n ∷ nodes) (true ∷ flags) =
      (inl refl, later n nodes (flagged nodes flags) (flagged_nodes nodes flags))
  flagged_nodes (n ∷ nodes) (false ∷ flags) =
      later n nodes (flagged nodes flags) (flagged_nodes nodes flags)

  closure_nodes :
      (name : Text) (entries : List KrgResolvedSymbol)
      → closure g name r.shims ≡ ok entries
      → All (λ e. In e g.nodes) entries
  unfolding closure
  closure_nodes name entries h =
      let (seen, _, e) = >>=-eq-ok (closure_flags g name r.shims) _ h in
      let same : flagged g.nodes seen ≡ entries = cc in
      subst (All (λ e. In e g.nodes)) same (flagged_nodes g.nodes seen)

  add_closure-IsState :
      (name : Text) (res : Result WalkError (List KrgResolvedSymbol)) (s s' : Resolving)
      → ((entries : List KrgResolvedSymbol) → res ≡ ok entries → All (λ e. In e g.nodes) entries)
      → IsState s
      → add_closure r name res s ≡ ok s'
      → IsState s'
  unfolding add_closure miss
  add_closure-IsState name (err key_error) s s' nodes is h =
      let e : miss name s ≡ s' = cc in
      subst IsState e (record { distinct = is.distinct; symbols = is.symbols })
  add_closure-IsState name (err index_error) s s' nodes is h = cc
  add_closure-IsState name (err out_of_fuel) s s' nodes is h = cc
  add_closure-IsState name (ok []) s s' nodes is h = cc
  add_closure-IsState name (ok (entry ∷ entries)) s s' nodes is h =
      let e : check_resolved name (add_entries r (entry ∷ entries) s) ≡ s' = cc in
      subst IsState e (
        check_resolved-IsState name _
          (add_entries-IsState (entry ∷ entries) s (nodes (entry ∷ entries) refl) is))

  add_requested-IsState :
      (names : List Text) (s s' : Resolving)
      → IsState s
      → add_requested g r names s ≡ ok s'
      → IsDistinct (resolved_names s'.ordered) × AreOf s'.ordered
  unfolding add_requested
  add_requested-IsState [] s s' is h =
      let e : s ≡ s' = cc in
      let done : IsState s' = subst IsState e is in (done.distinct, done.symbols)
  add_requested-IsState (name ∷ names) s s' is h =
      let (next, e, rest) = >>=-eq-ok (add_closure r name (closure g name r.shims) s) _ h in
      add_requested-IsState names next s'
        (add_closure-IsState name (closure g name r.shims) s next (closure_nodes name) is e) rest

  add_requested-start :
      (names : List Text) (s' : Resolving)
      → add_requested g r names
          (record { ordered = []; missing = []; needed_libs = []; dep_modules = [] })
        ≡ ok s'
      → IsDistinct (resolved_names s'.ordered) × AreOf s'.ordered
  add_requested-start names s' h =
      add_requested-IsState names _ s' (record { distinct = tt; symbols = tt }) h

-- Where the resolution succeeds, the symbols have pairwise distinct names; and each is the symbol of a node of the
-- graph, with its address, its size and its kind, exported exactly if its name is requested, and defined exactly
-- if its module is not the shim library.
pub resolve_requested_symbols-symbols :
    (requested_names : List Text) (g : KrgGraph) (shim_symbols : List Text) (res : Resolution)
    → resolve_requested_symbols requested_names g shim_symbols ≡ ok res
    → IsDistinct (resolved_names res.ordered)
      × All
          (IsOf g requested_names
            (dependency_shim_symbols requested_names shim_symbols)
            res.owner_module)
          res.ordered
unfolding resolve_requested_symbols resolve_from
resolve_requested_symbols-symbols [] g shim_symbols res h = cc
resolve_requested_symbols-symbols (first ∷ names) g shim_symbols res h =
    let shims = dependency_shim_symbols (first ∷ names) shim_symbols in
    let (entry, _, h1) = >>=-eq-ok (or_raise (not_in_graph first) (find g first)) _ h in
    let owner = module_for_entry shims entry in
    let (_, _, h2) = >>=-eq-ok (check_owner g shims owner (first ∷ names)) _ h1 in
    let r : Request = record {
      requested_names = first ∷ names;
      shims = shims;
      owner_module = owner;
    } in
    let (s, e, h3) = >>=-eq-ok (add_requested g r (first ∷ names) _) _ h2 in
    let (_, _, h4) =
      >>=-eq-ok
        (raise_if (not (length s.missing == 0) && length s.missing == length (first ∷ names))
          none_found)
        _ h3 in
    let result : Resolution = record {
      ordered = s.ordered;
      needed_libs = s.needed_libs;
      owner_module = owner;
      owner_lib = module_to_lib owner;
      dep_modules = s.dep_modules;
    } in
    let same : result ≡ res = cc in
    subst
      (λ x.
        IsDistinct (resolved_names x.ordered)
        × All (IsOf g (first ∷ names) shims x.owner_module) x.ordered)
      same (add_requested-start g r (first ∷ names) s e)
