-- ===== src/Analyzer/WorkloadCost/Pods.antt =====
-- The costs of the pods of a cluster (pkg/analyzer/server/implementation/workload_cost.go).
pub mod Merging
use kubefin.Base.{
  ℕ, String, Bool, Option, none, some, List, [], ◌∷◌, Dict, or_else, if◌then◌else◌, Outcome, done,
  panic, ◌>>=◌,
}
use kubefin.Base.Int.{ℤ}
use kubefin.External.Float64.{Float64, of_ℤ, nought, hour_in_seconds}
use kubefin.Analyzer.Goroutines.{wait, failure_of}
use kubefin.Analyzer.Query.{Backend}
use kubefin.Analyzer.Query.Promql
use kubefin.Analyzer.Series.{by_key, by_resource}
use kubefin.Analyzer.Details.{write_all, make_all}
use kubefin.Analyzer.WorkloadCost.Keys.{generate_pod_namespace_name_key}
use kubefin.Analyzer.WorkloadCost.Lists.{
  ClusterWorkloadCostDetail, ClusterWorkloadCost, new_detail, convert_cluster_workload_cost_to_list,
}

-- Values by pod or workload, and by time.
abbrev pub Rows : Type 0 → Type 0
Rows F = Dict String (Dict ℕ F)

module _ {F : Type 0} ⦃float : Float64 F⦄ where
  open float use {mul, div, of_ℕ}

  -- `v / float64(stepSeconds) * values.HourInSeconds`
  abbrev pub hourly : ℤ → F → F
  hourly step_seconds v = mul (div v (of_ℤ step_seconds)) hour_in_seconds

  -- `PodCount is always 1`
  abbrev pub new_pod_detail : ℕ → ClusterWorkloadCostDetail F
  new_pod_detail t = record (new_detail t) { pod_count = of_ℕ 1 }

  unfoldable pub parse_pod_total_cost :
      Rows F → Rows (ClusterWorkloadCostDetail F) → Rows (ClusterWorkloadCostDetail F)
  parse_pod_total_cost = make_all (λ t v. record (new_pod_detail t) { total_cost = v })

  unfoldable pub parse_pod_resource_request :
      Rows F × Rows F → ℤ → Rows (ClusterWorkloadCostDetail F) → Rows (ClusterWorkloadCostDetail F)
  parse_pod_resource_request (cpu_request, ram_request) step_seconds cost =
      write_all new_pod_detail (λ t v d. record d { ram_gib_request = hourly step_seconds v })
        ram_request
        (write_all new_pod_detail (λ t v d. record d { cpu_core_request = hourly step_seconds v })
          cpu_request cost)

  unfoldable pub parse_pod_resource_usage :
      Rows F × Rows F → ℤ → Rows (ClusterWorkloadCostDetail F) → Rows (ClusterWorkloadCostDetail F)
  parse_pod_resource_usage (cpu_usage, ram_usage) step_seconds cost =
      write_all new_pod_detail (λ t v d. record d { ram_gib_usage = hourly step_seconds v })
        ram_usage
        (write_all new_pod_detail (λ t v d. record d { cpu_core_usage = hourly step_seconds v })
          cpu_usage cost)

  -- The map that `queryPodCostsWithTimeRange` fills after the wait.
  unfoldable pub pod_workload_cost :
      Rows F → Rows F × Rows F → Rows F × Rows F → ℤ → Rows (ClusterWorkloadCostDetail F)
  pod_workload_cost total_costs request usage step_seconds =
      parse_pod_resource_usage usage step_seconds
        (parse_pod_resource_request request step_seconds (parse_pod_total_cost total_costs []))

  module _ (itoa : ℤ → String) (backend : Backend F) (cluster_id : String)
      (start end step_seconds : ℤ) where
    open backend use {query_range_with_step}

    unfoldable pub query_pod_total_costs_with_time_range : Option (Rows F)
    query_pod_total_costs_with_time_range =
        let promql =
          Promql.ql_pod_total_cost_from_cluster_with_time_range itoa cluster_id step_seconds in
        elim (query_range_with_step promql start end step_seconds) [
          | none ↦ none
          | some ret ↦ some (by_key generate_pod_namespace_name_key ret [])
        ]

    unfoldable pub query_pod_resource_request : Option (Rows F × Rows F)
    query_pod_resource_request =
        let promql =
          Promql.ql_pod_resource_request_from_cluster_with_time_range itoa cluster_id
            step_seconds in
        elim (query_range_with_step promql start end step_seconds) [
          | none ↦ none
          | some ret ↦ some (by_resource generate_pod_namespace_name_key ret ([], []))
        ]

    unfoldable pub query_pod_resource_usage : Option (Rows F × Rows F)
    query_pod_resource_usage =
        let promql =
          Promql.ql_pod_resource_usage_from_cluster_with_time_range itoa cluster_id step_seconds in
        elim (query_range_with_step promql start end step_seconds) [
          | none ↦ none
          | some ret ↦ some (by_resource generate_pod_namespace_name_key ret ([], []))
        ]

    -- `none` is an error; a variable of a call that failed is a nil map.
    unfoldable pub query_pod_costs_with_time_range :
        List ℕ → Outcome (Option (List (ClusterWorkloadCost F)))
    query_pod_costs_with_time_range schedule =
        let total_costs = query_pod_total_costs_with_time_range in
        let request = query_pod_resource_request in
        let usage = query_pod_resource_usage in
        let calls = failure_of total_costs ∷ failure_of request ∷ failure_of usage ∷ [] in
        if wait schedule calls then done none else (do
          list ← convert_cluster_workload_cost_to_list (
              pod_workload_cost (or_else [] total_costs) (or_else ([], []) request)
                (or_else ([], []) usage) step_seconds)
          done (some list))
