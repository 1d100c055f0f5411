-- ===== src/Checker/Rounds.antt =====
-- One round of the queue.
use binary_kernel_code_mappi.Prelude.{
  ◌≡◌, ◌++◌, false, [], ◌∷◌, Option, none, some, Text, contains, ok,
}
use binary_kernel_code_mappi.Checker.{ElfObj}
use binary_kernel_code_mappi.Checker.State.{State, Engine, record_missing_dep, resolve_symbol_owner}
use binary_kernel_code_mappi.Checker.Analyze.{analyze_function, analyze_name}
use binary_kernel_code_mappi.Checker.Growth.{Gives, Gives-ok, Effect-record_missing_dep}
use binary_kernel_code_mappi.Checker.Callees.{owner_callees, callees}
use binary_kernel_code_mappi.Checker.Callees.Queueing.{analyze_function-Gives}

abbrev pub visit : Text → State → State
visit name s = record s { visited = name ∷ s.visited }

-- A name that was not visited is visited now, and what its code leads to is queued.
pub analyze_name-Gives :
    (e : Engine) (name : Text) (s : State)
    → contains s.visited name ≡ false
    → Gives (callees e name) (visit name s) (analyze_name e name s)
unfolding analyze_name callees
analyze_name-Gives e name s new = rw new (go (resolve_symbol_owner e name))
  where
    go :
        (o : Option ElfObj)
        → Gives (owner_callees e name o) (visit name s) (elim o [
          | none ↦ ok (record_missing_dep name (visit name s))
          | some owner ↦ analyze_function e name owner (record (visit name s) {
            analysis_trace = s.analysis_trace ++ (owner.file.name, name) ∷ [];
          })
        ])
    go none t h = Gives-ok _ _ _ (Effect-record_missing_dep name (visit name s)) t h
    go (some owner) t h =
        let eff =
          analyze_function-Gives e name owner
            (record (visit name s) {
              analysis_trace = s.analysis_trace ++ (owner.file.name, name) ∷ [];
            })
            t h in
        record {
          visited = eff.visited;
          queue = eff.queue;
          fails = eff.fails;
          missing = eff.missing;
          unanalyzable = eff.unanalyzable;
        }
