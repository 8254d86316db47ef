-- ===== src/Analyzer/Goroutines/Schedules.antt =====
-- What the schedules of the goroutines can and cannot do to the errors of their calls.
use kubefin.Base.{
  ℕ, zero, suc, true, false, ◌||◌, string_key, Option, none, some, List, [], ◌∷◌, ◌++◌, ◌≡◌, refl,
  is_some, arith, map,
}
use kubefin.Analyzer.Goroutines.{Goroutine, Shared, act, step, run, reports, unset, wait}

module _ {E : Type 0} where
  pub reports-append :
      (errs : List (Option E)) (e : Option E)
      → reports (errs ++ e ∷ []) ≡ (reports errs || is_some e)
  unfolding reports
  reports-append [] none = refl
  reports-append [] (some e) = refl
  reports-append (none ∷ errs) e = reports-append errs e
  reports-append (some x ∷ errs) e = refl

  -- No error has been seen.
  abbrev pub IsQuiet : Shared E → Type 0
  IsQuiet s = (s.err ≡ none) × (reports s.errs ≡ false)

  abbrev pub Succeeds : Goroutine E → Type 0
  Succeeds (Goroutine.waiting e) = e ≡ none
  Succeeds (Goroutine.appending errs) = reports errs ≡ false
  Succeeds Goroutine.assigned = Unit {0}
  Succeeds Goroutine.finished = Unit {0}

  -- Each call that is still to return succeeds, and no error is being appended.
  abbrev pub AllSucceed : List (Goroutine E) → Type 0
  AllSucceed [] = Unit {0}
  AllSucceed (g ∷ gs) = Succeeds g × AllSucceed gs

  act-IsQuiet :
      (g : Goroutine E) (s : Shared E)
      → Succeeds g
      → IsQuiet s
      → Succeeds (act g s).0 × IsQuiet (act g s).1
  unfolding act
  act-IsQuiet (Goroutine.waiting e) s h q = (tt, (h, q.1))
  act-IsQuiet Goroutine.assigned s h q = (ground (arith, reports-append s.errs s.err), q)
  act-IsQuiet (Goroutine.appending errs) s h q = (tt, (q.0, h))
  act-IsQuiet Goroutine.finished s h q = (tt, q)

  step-IsQuiet :
      (k : ℕ) (gs : List (Goroutine E)) (s : Shared E)
      → AllSucceed gs
      → IsQuiet s
      → AllSucceed (step k gs s).0 × IsQuiet (step k gs s).1
  unfolding step
  step-IsQuiet k [] s h q = (tt, q)
  step-IsQuiet zero (g ∷ gs) s h q = let next = act-IsQuiet g s h.0 q in ((next.0, h.1), next.1)
  step-IsQuiet (suc k) (g ∷ gs) s h q =
      let next = step-IsQuiet k gs s h.1 q in ((h.0, next.0), next.1)

  pub run-IsQuiet :
      (ks : List ℕ) (gs : List (Goroutine E)) (s : Shared E)
      → AllSucceed gs
      → IsQuiet s
      → IsQuiet (run ks gs s).1
  unfolding run
  run-IsQuiet [] gs s h q = q
  run-IsQuiet (k ∷ ks) gs s h q =
      let next = step-IsQuiet k gs s h q in run-IsQuiet ks _ _ next.0 next.1

  -- What has become of a goroutine whose call fails.
  abbrev pub IsLoud : Shared E → Goroutine E → Type 0
  IsLoud s (Goroutine.waiting e) = is_some e ≡ true
  IsLoud s Goroutine.assigned = is_some s.err ≡ true
  IsLoud s (Goroutine.appending errs) = reports errs ≡ true
  IsLoud s Goroutine.finished = reports s.errs ≡ true

  abbrev pub AllLoud : Shared E → List (Goroutine E) → Type 0
  AllLoud s [] = Unit {0}
  AllLoud s (g ∷ gs) = IsLoud s g × AllLoud s gs

  -- What is loud stays loud.
  abbrev Keeps : Shared E → Shared E → Type 0
  Keeps s t =
      (is_some s.err ≡ true → is_some t.err ≡ true)
      × (reports s.errs ≡ true → reports t.errs ≡ true)

  IsLoud-Keeps : (s t : Shared E) (g : Goroutine E) → Keeps s t → IsLoud s g → IsLoud t g
  IsLoud-Keeps s t (Goroutine.waiting e) keeps h = h
  IsLoud-Keeps s t Goroutine.assigned keeps h = keeps.0 h
  IsLoud-Keeps s t (Goroutine.appending errs) keeps h = h
  IsLoud-Keeps s t Goroutine.finished keeps h = keeps.1 h

  AllLoud-Keeps :
      (s t : Shared E) (gs : List (Goroutine E)) → Keeps s t → AllLoud s gs → AllLoud t gs
  AllLoud-Keeps s t [] keeps h = tt
  AllLoud-Keeps s t (g ∷ gs) keeps h =
      (IsLoud-Keeps s t g keeps h.0, AllLoud-Keeps s t gs keeps h.1)

  act-IsLoud :
      (g : Goroutine E) (s : Shared E)
      → IsLoud s g
      → IsLoud (act g s).1 (act g s).0 × Keeps s (act g s).1
  unfolding act
  act-IsLoud (Goroutine.waiting e) s h = (h, (λ i. h, λ i. i))
  act-IsLoud Goroutine.assigned s h =
      (ground (arith, reports-append s.errs s.err), (λ i. i, λ i. i))
  act-IsLoud (Goroutine.appending errs) s h = (h, (λ i. i, λ i. h))
  act-IsLoud Goroutine.finished s h = (h, (λ i. i, λ i. i))

  step-AllLoud :
      (k : ℕ) (gs : List (Goroutine E)) (s : Shared E)
      → AllLoud s gs
      → AllLoud (step k gs s).1 (step k gs s).0 × Keeps s (step k gs s).1
  unfolding step
  step-AllLoud k [] s h = (tt, (λ i. i, λ i. i))
  step-AllLoud zero (g ∷ gs) s h =
      let (loud, keeps) = act-IsLoud g s h.0 in
      ((loud, AllLoud-Keeps s (act g s).1 gs keeps h.1), keeps)
  step-AllLoud (suc k) (g ∷ gs) s h =
      let (loud, keeps) = step-AllLoud k gs s h.1 in
      ((IsLoud-Keeps s (step k gs s).1 g keeps h.0, loud), keeps)

  pub run-AllLoud :
      (ks : List ℕ) (gs : List (Goroutine E)) (s : Shared E)
      → AllLoud s gs
      → AllLoud (run ks gs s).1 (run ks gs s).0
  unfolding run
  run-AllLoud [] gs s h = h
  run-AllLoud (k ∷ ks) gs s h = run-AllLoud ks _ _ (step-AllLoud k gs s h).0

  -- Every call succeeds.
  abbrev pub AllReturn : List (Option E) → Type 0
  AllReturn [] = Unit {0}
  AllReturn (e ∷ calls) = (e ≡ none) × AllReturn calls

  AllReturn-AllSucceed :
      (calls : List (Option E)) → AllReturn calls → AllSucceed (map Goroutine.waiting calls)
  AllReturn-AllSucceed [] h = tt
  AllReturn-AllSucceed (e ∷ calls) h = (h.0, AllReturn-AllSucceed calls h.1)

  -- Where every call succeeds, no schedule reports an error.
  pub wait-AllReturn :
      (schedule : List ℕ) (calls : List (Option E)) → AllReturn calls → wait schedule calls ≡ false
  unfolding wait reports
  wait-AllReturn schedule calls h =
      (run-IsQuiet schedule (map Goroutine.waiting calls) unset (AllReturn-AllSucceed calls h)
        (refl, refl)).1
