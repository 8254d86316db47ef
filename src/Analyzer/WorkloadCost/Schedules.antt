-- ===== src/Analyzer/WorkloadCost/Schedules.antt =====
-- What the schedules of its goroutines can and cannot do to the errors of the two calls.
use kubefin.Base.{ℕ, string_key, none, some, List, [], ◌∷◌, ◌++◌, ◌≡◌, refl, subst}
use kubefin.Analyzer.Goroutines.{Goroutine, act, step, run, reports, unset}
use kubefin.Analyzer.Goroutines.Schedules.{run-IsQuiet, run-AllLoud, AllLoud}
use kubefin.Analyzer.WorkloadCost.{
  Reply, started, aggregate_by_all, query_workload_costs_with_time_range,
}

module _ {E A : Type 0} where
  -- Aggregated over all kinds, where both calls fail, every schedule after which the goroutine of
  -- the pods has finished gives an error.
  pub query_workload_costs-fail :
      (schedule : List ℕ) (e f : E) (rest : List (Goroutine E))
      → (run schedule (started {A = A} aggregate_by_all (Reply.failed e) (Reply.failed f)) unset).0
        ≡ Goroutine.finished ∷ rest
      → query_workload_costs_with_time_range {A = A} schedule aggregate_by_all
          (Reply.failed e)
          (Reply.failed f)
        ≡ none
  unfolding query_workload_costs_with_time_range started
  query_workload_costs-fail schedule e f rest done =
      let gs = Goroutine.waiting (some e) ∷ Goroutine.waiting (some f) ∷ [] in
      let loud = run-AllLoud schedule gs unset (refl, (refl, tt)) in
      let seen = subst (AllLoud (run schedule gs unset).1) done loud in rw seen.0

  -- Aggregated over all kinds, whatever the error of the call for the pods and the costs of the
  -- workloads, there is a schedule that finishes both goroutines and loses the error: the result is
  -- the costs of the workloads, as if there were none of pods.
  pub query_workload_costs-lost :
      (e : E) (workloads : List A)
      → (schedule : List ℕ) × ((run schedule
            (started aggregate_by_all (Reply.failed e) (Reply.returned workloads))
            unset).0
          ≡ Goroutine.finished ∷ Goroutine.finished ∷ [])
        × (query_workload_costs_with_time_range schedule aggregate_by_all
              (Reply.failed e)
              (Reply.returned workloads)
            ≡ some workloads)
  unfolding query_workload_costs_with_time_range started run step act reports
  query_workload_costs-lost e workloads = (0 ∷ 1 ∷ 0 ∷ 0 ∷ 1 ∷ 1 ∷ [], refl, refl)

module _ (E : Type 0) {A : Type 0} where
  -- Aggregated over all kinds, where both calls succeed, every schedule gives the costs of the pods
  -- and then those of the workloads.
  pub query_workload_costs-succeed :
      (schedule : List ℕ) (pods workloads : List A)
      → query_workload_costs_with_time_range {E = E} schedule aggregate_by_all
          (Reply.returned pods)
          (Reply.returned workloads)
        ≡ some (pods ++ workloads)
  unfolding query_workload_costs_with_time_range started reports
  query_workload_costs-succeed schedule pods workloads =
      let gs : List (Goroutine E) = Goroutine.waiting none ∷ Goroutine.waiting none ∷ [] in
      let quiet = run-IsQuiet schedule gs unset (refl, (refl, tt)) (refl, refl) in rw quiet.1
