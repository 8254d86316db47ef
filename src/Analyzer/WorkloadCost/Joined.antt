-- ===== src/Analyzer/WorkloadCost/Joined.antt =====
-- `QueryWorkloadCostsWithTimeRange` of pkg/analyzer/server/implementation/workload_cost.go with its two
-- calls. A panic in a goroutine ends the program.
use kubefin.Base.{
  ℕ, String, not, ◌||◌, ◌==◌, string_key, Option, none, some, List, [], if◌then◌else◌, Outcome,
  done, ◌>>=◌,
}
use kubefin.Base.Int.{ℤ}
use kubefin.External.Float64.{Float64}
use kubefin.Analyzer.Query.{Backend}
use kubefin.Analyzer.WorkloadCost.{
  Reply, aggregate_by_pod, aggregate_by_all, query_workload_costs_with_time_range,
}
use kubefin.Analyzer.WorkloadCost.Lists.{ClusterWorkloadCost}
use kubefin.Analyzer.WorkloadCost.Pods.{query_pod_costs_with_time_range}
use kubefin.Analyzer.WorkloadCost.HighLevel.{query_high_level_workload_costs_with_time_range}

pub record ClusterWorkloadCostList (F : Type 0) : Type 0 where
  pub cluster_id : String
  pub items : List (ClusterWorkloadCost F)

abbrev pub reply_of : {A : Type 0} → Option (List A) → Reply (Unit {0}) A
reply_of none = Reply.failed tt
reply_of (some list) = Reply.returned list

-- The three schedules are those of the goroutines of the call and of the two that it makes.
unfoldable pub query_workload_cost_list :
    {F : Type 0} ⦃float : Float64 F⦄
    → (ℤ → String)
    → Backend F
    → String
    → ℤ
    → ℤ
    → ℤ
    → String
    → List ℕ × List ℕ × List ℕ
    → Outcome (Option (ClusterWorkloadCostList F))
query_workload_cost_list itoa backend cluster_id start end step_seconds aggregate_by
      (schedule, pod_schedule, workload_schedule) =
    do
      pods ←
          if aggregate_by == aggregate_by_pod || aggregate_by == aggregate_by_all
          then query_pod_costs_with_time_range itoa backend cluster_id start end step_seconds
              pod_schedule
          else done (some [])
      workloads ←
          if not (aggregate_by == aggregate_by_pod)
          then query_high_level_workload_costs_with_time_range itoa backend cluster_id start end
              step_seconds aggregate_by workload_schedule
          else done (some [])
      let costs =
          query_workload_costs_with_time_range schedule aggregate_by (reply_of pods)
            (reply_of workloads)
      done (elim costs [
        | none ↦ none
        | some items ↦ some (record { cluster_id = cluster_id; items = items })
      ])
