-- ===== src/Analyzer/WorkloadCost.antt =====
-- `QueryWorkloadCostsWithTimeRange` of pkg/analyzer/server/implementation/workload_cost.go, from the
-- replies of its two calls.
pub mod Schedules
pub mod Keys
pub mod Lists
pub mod Pods
pub mod HighLevel
pub mod Joined
use kubefin.Base.{
  ℕ, zero, suc, String, Bool, true, false, not, ◌||◌, ◌==◌, string_key, Option, none, some, List,
  [], ◌∷◌, ◌++◌, if◌then◌else◌,
}
use kubefin.Analyzer.Goroutines.{Goroutine, Shared, run, reports, unset}

abbrev pub aggregate_by_pod : String
aggregate_by_pod = "pod"

abbrev pub aggregate_by_all : String
aggregate_by_all = "all"

-- What a call returns: its value and a nil error, or a nil value and an error.
pub data Reply (E A : Type 0) : Type 0 where
  failed : E → Reply E A
  returned : List A → Reply E A

module _ {E A : Type 0} where
  abbrev pub error_of : Reply E A → Option E
  error_of (Reply.failed e) = some e
  error_of (Reply.returned v) = none

  abbrev pub value_of : Reply E A → List A
  value_of (Reply.failed e) = []
  value_of (Reply.returned v) = v

  -- The goroutines that are started.
  unfoldable pub started : String → Reply E A → Reply E A → List (Goroutine E)
  started aggregate_by pods workloads =
      (if aggregate_by == aggregate_by_pod || aggregate_by == aggregate_by_all
        then Goroutine.waiting (error_of pods) ∷ []
        else [])
      ++ (if not (aggregate_by == aggregate_by_pod)
          then Goroutine.waiting (error_of workloads) ∷ []
          else [])

  -- The result after `wg.Wait()`; `none` is an error.
  unfoldable pub query_workload_costs_with_time_range :
      List ℕ → String → Reply E A → Reply E A → Option (List A)
  query_workload_costs_with_time_range schedule aggregate_by pods workloads =
      let after = run schedule (started aggregate_by pods workloads) unset in
      let pod_costs =
        if aggregate_by == aggregate_by_pod || aggregate_by == aggregate_by_all
        then value_of pods
        else [] in
      let workload_costs =
        if not (aggregate_by == aggregate_by_pod) then value_of workloads else [] in
      if reports (Shared.errs after.1) then none else some (pod_costs ++ workload_costs)
