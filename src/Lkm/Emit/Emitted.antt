-- ===== src/Lkm/Emit/Emitted.antt =====
-- What the loop over the relocations of the data emits.
use mathlib.Core.Path.{subst}
use mathlib.Core.List.{append_assoc, append-nil}
use binary_kernel_code_mappi.Prelude.{
  ◌≡◌, sym, ◌∙◌, Bool, true, false, List, [], ◌∷◌, ◌++◌, Option, none, some, contains, length,
  lookup, if◌then◌else◌, ok, >>=-eq-ok,
}
use binary_kernel_code_mappi.Ko.CoreLayout.{KoDataReloc}
use binary_kernel_code_mappi.Lkm.{LkmNode, LkmSymbol}
use binary_kernel_code_mappi.Lkm.Nodes.{Setting}
use binary_kernel_code_mappi.Lkm.Table.{
  Table, fresh_table, is_left_out, symbol_of_node, node_symbols, append_symbol, need_shim,
}
use binary_kernel_code_mappi.Lkm.Emit.{LkmReloc, reloc_target, emit, or_skip, emit_all}
use binary_kernel_code_mappi.Lkm.Emit.Rounds.{
  IsAt, IsIndexed, FindsNames, IsSkipped, IsAt-append, Outcome, emit-Round, IsIndexed-append_symbol,
  ok_inj,
}

module _ (c : Setting) where
  -- The relocation is emitted at its offset, against a symbol that has the name of its target.
  abbrev pub IsFor : List LkmSymbol → KoDataReloc → LkmReloc → Type 0
  IsFor symbols r e =
      (e.offset ≡ r.offset)
      × (e.addend ≡ (reloc_target c.ko r).addend)
      × IsAt symbols e.symbol (reloc_target c.ko r).name

  -- Relocation by relocation, in order.
  pub data Emits (symbols : List LkmSymbol) : List KoDataReloc → List LkmReloc → Type 0 where
    end : Emits symbols [] []
    emits_one :
        {r : KoDataReloc} {e : LkmReloc} {rs : List KoDataReloc} {out : List LkmReloc}
        → IsFor symbols r e
        → Emits symbols rs out
        → Emits symbols (r ∷ rs) (e ∷ out)
    skips_one :
        {r : KoDataReloc} {rs : List KoDataReloc} {out : List LkmReloc}
        → IsSkipped c r
        → Emits symbols rs out
        → Emits symbols (r ∷ rs) out

  IsFor-append :
      (symbols more : List LkmSymbol) (r : KoDataReloc) (e : LkmReloc)
      → IsFor symbols r e
      → IsFor (symbols ++ more) r e
  IsFor-append symbols more r e (offset, addend, at) =
      (offset, addend, IsAt-append c symbols more e.symbol (reloc_target c.ko r).name at)

  Emits-or_skip :
      (symbols more : List LkmSymbol) (r : KoDataReloc) (o : Option LkmReloc)
      (rs : List KoDataReloc) (out : List LkmReloc)
      → Outcome c symbols r (reloc_target c.ko r) o
      → Emits (symbols ++ more) rs out
      → Emits (symbols ++ more) (r ∷ rs) (or_skip o out)
  unfolding or_skip Outcome
  Emits-or_skip symbols more r none rs out at emits = skips_one at emits
  Emits-or_skip symbols more r (some e) rs out found emits =
      emits_one (IsFor-append symbols more r e found) emits

  emit_all-Emits :
      (rs : List KoDataReloc) (tab : Table) (p : List LkmReloc × Table)
      → FindsNames c.graph
      → IsIndexed tab
      → emit_all c rs tab ≡ ok p
      → IsIndexed p.1
        × ((more : List LkmSymbol) × (p.1.symbols ≡ tab.symbols ++ more))
        × Emits p.1.symbols rs p.0
  unfolding emit_all
  emit_all-Emits [] tab p finds indexed h =
      subst
        (λ (q : List LkmReloc × Table).
          IsIndexed q.1
          × ((more : List LkmSymbol) × (q.1.symbols ≡ tab.symbols ++ more))
          × Emits q.1.symbols [] q.0)
        (ok_inj h) (indexed, ([], sym (append-nil tab.symbols)), end)
  emit_all-Emits (r ∷ rs) tab p finds indexed h =
      let ((o, u), one, h1) = >>=-eq-ok (emit c r tab) _ h in
      let ((out, last), later, h2) = >>=-eq-ok (emit_all c rs u) _ h1 in
      let round = emit-Round c r tab (o, u) finds indexed one in
      let (kept, (more, grown), emits) =
        emit_all-Emits rs u (out, last) finds round.indexed later in
      let (now, first) = round.grown in
      subst
        (λ (q : List LkmReloc × Table).
          IsIndexed q.1
          × ((more : List LkmSymbol) × (q.1.symbols ≡ tab.symbols ++ more))
          × Emits q.1.symbols (r ∷ rs) q.0)
        (ok_inj h2)
        (
          kept,
          (now ++ more, grown ∙ rw first (append_assoc tab.symbols now more)),
          subst (λ symbols. Emits symbols (r ∷ rs) (or_skip o out)) (sym grown)
              (Emits-or_skip u.symbols more r o rs out round.outcome
                (subst (λ symbols. Emits symbols rs out) grown emits)),
        )

  node_symbols-IsIndexed :
      (ns : List LkmNode) (tab u : Table)
      → IsIndexed tab
      → node_symbols c ns tab ≡ ok u
      → IsIndexed u
  unfolding node_symbols need_shim
  node_symbols-IsIndexed [] tab u indexed h = subst IsIndexed (ok_inj h) indexed
  node_symbols-IsIndexed (n ∷ ns) tab u indexed h =
      let (left_out, read, h1) = >>=-eq-ok (is_left_out c.ko n) _ h in
      let needed = need_shim (contains c.shim_targets n.name) tab in
      node_symbols-IsIndexed ns _ u
        (either left_out needed (symbol_of_node c (length tab.symbols) n) indexed) h1
    where
      either :
          (b : Bool) (t : Table) (s : LkmSymbol)
          → IsIndexed t
          → IsIndexed (if b then t else append_symbol s t)
      either true t s indexed = indexed
      either false t s indexed = IsIndexed-append_symbol c s t indexed

fresh_table-IsIndexed : IsIndexed fresh_table
unfolding lookup
fresh_table-IsIndexed name idx bad = cc

-- Where build_lkm_so makes the symbols of the nodes and gets through the relocations of the data, and the graph finds
-- nodes under their own names: each name has a symbol of that name; the symbols of the nodes keep their places;
-- and relocation by relocation, in order, one is emitted at the same offset, with the addend of its target and
-- against a symbol that has the target's name, but for local targets whose section is left out of the layout.
pub emit_all-relocations :
    (c : Setting) (ns : List LkmNode) (rs : List KoDataReloc) (tab last : Table)
    (out : List LkmReloc)
    → FindsNames c.graph
    → node_symbols c ns fresh_table ≡ ok tab
    → emit_all c rs tab ≡ ok (out, last)
    → IsIndexed last
      × ((more : List LkmSymbol) × (last.symbols ≡ tab.symbols ++ more))
      × Emits c last.symbols rs out
emit_all-relocations c ns rs tab last out finds made emitted =
    emit_all-Emits c rs tab (out, last) finds
      (node_symbols-IsIndexed c ns fresh_table tab fresh_table-IsIndexed made) emitted
