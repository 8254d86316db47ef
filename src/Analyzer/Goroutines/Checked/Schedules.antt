-- ===== src/Analyzer/Goroutines/Checked/Schedules.antt =====
-- Where no call fails, the errors of a join are those that the values give.
use kubefin.Base.{ℕ, zero, suc, false, none, List, [], ◌∷◌, ◌≡◌, refl, arith}
use kubefin.Analyzer.Goroutines.{Shared, reports, unset}
use kubefin.Analyzer.Goroutines.Schedules.{reports-append}
use kubefin.Analyzer.Goroutines.Checked.{Caller, advance, turn, interleave, join}

module _ {E : Type 0} where
  -- Neither the call nor its value gives an error.
  abbrev IsFine : Caller E → Type 0
  IsFine (Caller.waiting e value_error) = (e ≡ none) × (value_error ≡ none)
  IsFine (Caller.assigned value_error) = value_error ≡ none
  IsFine Caller.failing = Unit {0}
  IsFine (Caller.returned e) = e ≡ none
  IsFine (Caller.appending errs) = reports errs ≡ false
  IsFine Caller.finished = Unit {0}

  abbrev pub AreFine : List (Caller E) → Type 0
  AreFine [] = Unit {0}
  AreFine (c ∷ cs) = IsFine c × AreFine cs

  -- No error has been seen.
  abbrev IsQuiet : Shared E → Type 0
  IsQuiet s = (s.err ≡ none) × (reports s.errs ≡ false)

  advance-IsQuiet :
      (c : Caller E) (s : Shared E)
      → IsFine c
      → IsQuiet s
      → IsFine (advance c s).0 × IsQuiet (advance c s).1
  unfolding advance
  advance-IsQuiet (Caller.waiting e value_error) s h q = (h.1, (h.0, q.1))
  advance-IsQuiet (Caller.assigned value_error) s h q = ground arith
  advance-IsQuiet Caller.failing s h q = (q.0, q)
  advance-IsQuiet (Caller.returned e) s h q = (ground (arith, reports-append s.errs e), q)
  advance-IsQuiet (Caller.appending errs) s h q = (tt, (q.0, h))
  advance-IsQuiet Caller.finished s h q = (tt, q)

  turn-IsQuiet :
      (k : ℕ) (cs : List (Caller E)) (s : Shared E)
      → AreFine cs
      → IsQuiet s
      → AreFine (turn k cs s).0 × IsQuiet (turn k cs s).1
  unfolding turn
  turn-IsQuiet k [] s h q = (tt, q)
  turn-IsQuiet zero (c ∷ cs) s h q = let next = advance-IsQuiet c s h.0 q in ((next.0, h.1), next.1)
  turn-IsQuiet (suc k) (c ∷ cs) s h q =
      let next = turn-IsQuiet k cs s h.1 q in ((h.0, next.0), next.1)

  interleave-IsQuiet :
      (ks : List ℕ) (cs : List (Caller E)) (s : Shared E)
      → AreFine cs
      → IsQuiet s
      → IsQuiet (interleave ks cs s).1
  unfolding interleave
  interleave-IsQuiet [] cs s h q = q
  interleave-IsQuiet (k ∷ ks) cs s h q =
      let next = turn-IsQuiet k cs s h q in interleave-IsQuiet ks _ _ next.0 next.1

  -- No schedule reports an error, where no call and no value gives one.
  pub join-AreFine :
      (schedule : List ℕ) (cs : List (Caller E)) → AreFine cs → join schedule cs ≡ false
  unfolding join reports
  join-AreFine schedule cs h = (interleave-IsQuiet schedule cs unset h (refl, refl)).1
