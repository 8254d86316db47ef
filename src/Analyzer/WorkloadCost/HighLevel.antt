-- ===== src/Analyzer/WorkloadCost/HighLevel.antt =====
-- The costs of deployments, stateful sets, daemon sets and custom workloads of a cluster
-- (pkg/analyzer/server/implementation/workload_cost.go).
pub mod Merging
use kubefin.Base.{
  ℕ, String, Bool, ◌==◌, string_key, Option, none, some, List, [], ◌∷◌, Dict, or_else,
  if◌then◌else◌, Outcome, done, panic, ◌>>=◌,
}
use kubefin.Base.Int.{ℤ}
use kubefin.External.Float64.{Float64, of_ℤ, nought, hour_in_seconds, metrics_period_in_seconds}
use kubefin.Analyzer.Goroutines.{wait, failure_of}
use kubefin.Analyzer.Query.{Backend}
use kubefin.Analyzer.Query.Promql
use kubefin.Analyzer.Series.{by_key, by_resource}
use kubefin.Analyzer.Details.{write_all, make_all}
use kubefin.Analyzer.WorkloadCost.{aggregate_by_all}
use kubefin.Analyzer.WorkloadCost.Keys.{generate_workload_namespace_name_key}
use kubefin.Analyzer.WorkloadCost.Lists.{
  ClusterWorkloadCostDetail, ClusterWorkloadCost, new_detail, convert_cluster_workload_cost_to_list,
}
use kubefin.Analyzer.WorkloadCost.Pods.{Rows}

module _ {F : Type 0} ⦃float : Float64 F⦄ where
  open float use {div, of_ℕ}

  -- `v / (float64(stepSeconds) / values.HourInSeconds)`, and with `values.MetricsPeriodInSeconds`
  abbrev pub per_hour : ℤ → F → F
  per_hour step_seconds v = div v (div (of_ℤ step_seconds) hour_in_seconds)

  abbrev pub per_period : ℤ → F → F
  per_period step_seconds v = div v (div (of_ℤ step_seconds) metrics_period_in_seconds)

  unfoldable pub parse_high_level_workload_total_cost :
      Rows F → Rows (ClusterWorkloadCostDetail F) → Rows (ClusterWorkloadCostDetail F)
  parse_high_level_workload_total_cost = make_all (λ t v. record (new_detail t) { total_cost = v })

  unfoldable pub parse_high_level_workload_pod_count :
      Rows F → ℤ → Rows (ClusterWorkloadCostDetail F) → Rows (ClusterWorkloadCostDetail F)
  parse_high_level_workload_pod_count pod_count step_seconds =
      write_all new_detail (λ t v d. record d { pod_count = per_period step_seconds v }) pod_count

  unfoldable pub parse_high_level_workload_resource_request :
      Rows F × Rows F → ℤ → Rows (ClusterWorkloadCostDetail F) → Rows (ClusterWorkloadCostDetail F)
  parse_high_level_workload_resource_request (cpu_request, ram_request) step_seconds cost =
      write_all new_detail (λ t v d. record d { ram_gib_request = per_hour step_seconds v })
        ram_request
        (write_all new_detail (λ t v d. record d { cpu_core_request = per_hour step_seconds v })
          cpu_request cost)

  unfoldable pub parse_high_level_workload_resource_usage :
      Rows F × Rows F → ℤ → Rows (ClusterWorkloadCostDetail F) → Rows (ClusterWorkloadCostDetail F)
  parse_high_level_workload_resource_usage (cpu_usage, ram_usage) step_seconds cost =
      write_all new_detail (λ t v d. record d { ram_gib_usage = per_hour step_seconds v }) ram_usage
        (write_all new_detail (λ t v d. record d { cpu_core_usage = per_hour step_seconds v })
          cpu_usage cost)

  -- The map that `queryHighLevelWorkloadCostsWithTimeRange` fills after the wait.
  unfoldable pub workload_cost :
      Rows F → Rows F → Rows F × Rows F → Rows F × Rows F → ℤ → Rows (ClusterWorkloadCostDetail F)
  workload_cost total_costs pod_count request usage step_seconds =
      parse_high_level_workload_resource_usage usage step_seconds (
        parse_high_level_workload_resource_request request step_seconds (
          parse_high_level_workload_pod_count pod_count step_seconds
            (parse_high_level_workload_total_cost total_costs [])))

  module _ (itoa : ℤ → String) (backend : Backend F) (cluster_id query_re : String)
      (start end step_seconds : ℤ) where
    open backend use {query_range_with_step}

    unfoldable pub query_high_level_workload_total_cost : Option (Rows F)
    query_high_level_workload_total_cost =
        let promql =
          Promql.ql_workload_total_cost_from_cluster_with_time_range itoa cluster_id query_re
            step_seconds in
        elim (query_range_with_step promql start end step_seconds) [
          | none ↦ none
          | some ret ↦ some (by_key generate_workload_namespace_name_key ret [])
        ]

    unfoldable pub query_high_level_workload_pod_count : Option (Rows F)
    query_high_level_workload_pod_count =
        let promql =
          Promql.ql_workload_pod_from_cluster_with_time_range itoa cluster_id query_re
            step_seconds in
        elim (query_range_with_step promql start end step_seconds) [
          | none ↦ none
          | some ret ↦ some (by_key generate_workload_namespace_name_key ret [])
        ]

    unfoldable pub query_high_level_workload_resource_request : Option (Rows F × Rows F)
    query_high_level_workload_resource_request =
        let promql =
          Promql.ql_workload_resource_request_from_cluster_with_time_range itoa cluster_id query_re
            step_seconds in
        elim (query_range_with_step promql start end step_seconds) [
          | none ↦ none
          | some ret ↦ some (by_resource generate_workload_namespace_name_key ret ([], []))
        ]

    unfoldable pub query_high_level_workload_resource_usage : Option (Rows F × Rows F)
    query_high_level_workload_resource_usage =
        let promql =
          Promql.ql_workload_resource_usage_from_cluster_with_time_range itoa cluster_id query_re
            step_seconds in
        elim (query_range_with_step promql start end step_seconds) [
          | none ↦ none
          | some ret ↦ some (by_resource generate_workload_namespace_name_key ret ([], []))
        ]

  unfoldable pub query_high_level_workload_costs_with_time_range :
      (ℤ → String)
      → Backend F
      → String
      → ℤ
      → ℤ
      → ℤ
      → String
      → List ℕ
      → Outcome (Option (List (ClusterWorkloadCost F)))
  query_high_level_workload_costs_with_time_range itoa backend cluster_id start end step_seconds
        aggregate_by schedule =
      let query_re = if aggregate_by == aggregate_by_all then ".*" else aggregate_by in
      let total_costs =
        query_high_level_workload_total_cost itoa backend cluster_id query_re start end
          step_seconds in
      let pod_count =
        query_high_level_workload_pod_count itoa backend cluster_id query_re start end
          step_seconds in
      let request =
        query_high_level_workload_resource_request itoa backend cluster_id query_re start end
          step_seconds in
      let usage =
        query_high_level_workload_resource_usage itoa backend cluster_id query_re start end
          step_seconds in
      let calls =
        failure_of total_costs
        ∷ failure_of pod_count
        ∷ failure_of request
        ∷ failure_of usage
        ∷ [] in
      if wait schedule calls then done none else (do
        list ← convert_cluster_workload_cost_to_list (
            workload_cost (or_else [] total_costs) (or_else [] pod_count) (or_else ([], []) request)
              (or_else ([], []) usage) step_seconds)
        done (some list))
