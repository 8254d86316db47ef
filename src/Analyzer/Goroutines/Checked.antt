-- ===== src/Analyzer/Goroutines/Checked.antt =====
-- The goroutines of `QueryAllClustersBasicProperty` and `QueryClusterBasicProperty`
-- (pkg/analyzer/server/implementation/cluster_metrics.go), which share `err` too, and read it twice
-- before they append what they return: once in `if err != nil` and once in `return err`.
-- The append reads `errs` when the call in its argument has returned, as the compiler of Go has it.
pub mod Schedules
use kubefin.Base.{ℕ, zero, suc, Bool, Option, none, some, List, [], ◌∷◌, ◌++◌}
use kubefin.Analyzer.Goroutines.{Shared, reports, unset}

pub data Caller (E : Type 0) : Type 0 where
  -- before the assignment, with the error of the call and the error that the value gives
  waiting : Option E → Option E → Caller E
  -- before the test of `err`, with the error that the value gives
  assigned : Option E → Caller E
  -- before `return err`
  failing : Caller E
  -- before the append reads `errs`, with the error that is returned
  returned : Option E → Caller E
  -- before the append stores the longer slice
  appending : List (Option E) → Caller E
  finished : Caller E

module _ {E : Type 0} where
  unfoldable pub advance : Caller E → Shared E → Caller E × Shared E
  advance (Caller.waiting e value_error) s = (Caller.assigned value_error, record s { err = e })
  advance (Caller.assigned value_error) s = elim s.err [
    | none ↦ (Caller.returned value_error, s)
    | some e ↦ (Caller.failing, s)
  ]
  advance Caller.failing s = (Caller.returned s.err, s)
  advance (Caller.returned e) s = (Caller.appending (s.errs ++ e ∷ []), s)
  advance (Caller.appending errs) s = (Caller.finished, record s { errs = errs })
  advance Caller.finished s = (Caller.finished, s)

  unfoldable pub turn : ℕ → List (Caller E) → Shared E → List (Caller E) × Shared E
  turn k [] s = ([], s)
  turn zero (c ∷ cs) s = let next = advance c s in (next.0 ∷ cs, next.1)
  turn (suc k) (c ∷ cs) s = let next = turn k cs s in (c ∷ next.0, next.1)

  unfoldable pub interleave : List ℕ → List (Caller E) → Shared E → List (Caller E) × Shared E
  interleave [] cs s = (cs, s)
  interleave (k ∷ ks) cs s = let next = turn k cs s in interleave ks next.0 next.1

  -- Whether `errs` holds an error after the schedule.
  unfoldable pub join : List ℕ → List (Caller E) → Bool
  join schedule cs = reports (Shared.errs (interleave schedule cs unset).1)
