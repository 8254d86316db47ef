-- ===== src/Analyzer/Goroutines.antt =====
-- The pattern of the queries of pkg/analyzer/server/implementation: goroutines that share one variable
-- `err` and one slice `errs`, without a lock. An assignment of `err` is one step and an append two, as it
-- reads `errs` and `err` and stores the longer slice: two goroutines that append at the same time can
-- lose an entry. A schedule names the goroutine that takes the next step. A slice is a list, so that
-- the array that two appends can share is not modelled.
pub mod Schedules
pub mod Checked
use kubefin.Base.{
  ℕ, zero, suc, String, Bool, true, false, not, ◌||◌, ◌==◌, string_key, Option, none, some, List,
  map, [], ◌∷◌, ◌++◌, if◌then◌else◌,
}

-- `func() { defer wg.Done(); x, err = call(); errs = append(errs, err) }`
pub data Goroutine (E : Type 0) : Type 0 where
  -- before the assignment, with the error that the call returns
  waiting : Option E → Goroutine E
  -- before the append reads `errs` and `err`
  assigned : Goroutine E
  -- before the append stores the longer slice
  appending : List (Option E) → Goroutine E
  finished : Goroutine E

pub record Shared (E : Type 0) : Type 0 where
  pub err : Option E
  pub errs : List (Option E)

module _ {E : Type 0} where
  unfoldable pub act : Goroutine E → Shared E → Goroutine E × Shared E
  act (Goroutine.waiting e) s = (Goroutine.assigned, record s { err = e })
  act Goroutine.assigned s = (Goroutine.appending (s.errs ++ s.err ∷ []), s)
  act (Goroutine.appending errs) s = (Goroutine.finished, record s { errs = errs })
  act Goroutine.finished s = (Goroutine.finished, s)

  unfoldable pub step : ℕ → List (Goroutine E) → Shared E → List (Goroutine E) × Shared E
  step k [] s = ([], s)
  step zero (g ∷ gs) s = let next = act g s in (next.0 ∷ gs, next.1)
  step (suc k) (g ∷ gs) s = let next = step k gs s in (g ∷ next.0, next.1)

  unfoldable pub run : List ℕ → List (Goroutine E) → Shared E → List (Goroutine E) × Shared E
  run [] gs s = (gs, s)
  run (k ∷ ks) gs s = let next = step k gs s in run ks next.0 next.1

  -- `errors.NewAggregate(errs) != nil`: an error in the list that is not nil
  unfoldable pub reports : List (Option E) → Bool
  reports [] = false
  reports (none ∷ errs) = reports errs
  reports (some e ∷ errs) = true

  abbrev pub unset : Shared E
  unset = record { err = none; errs = [] }

  -- The calls that are waited for, by the error that each returns: whether `errs` holds an error after
  -- the schedule.
  unfoldable pub wait : List ℕ → List (Option E) → Bool
  wait schedule calls = reports (Shared.errs (run schedule (map Goroutine.waiting calls) unset).1)

-- The error of a reply that is `none` on an error.
abbrev pub failure_of {ℓ} : {A : Type ℓ} → Option A → Option (Unit {0})
failure_of none = some tt
failure_of (some a) = none
