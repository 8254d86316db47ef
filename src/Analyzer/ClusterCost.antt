-- ===== src/Analyzer/ClusterCost.antt =====
-- The costs of clusters in the current month (pkg/analyzer/server/implementation/cluster_cost.go). The
-- month is given by its start and end; the properties of the clusters, of which the active times are
-- read, are the replies of QueryAllClustersBasicProperty and QueryClusterBasicProperty.
mod Lookup
pub mod Agreement
use kubefin.Base.{
  ℕ, String, string_key, Option, none, some, List, [], ◌∷◌, Dict, get, put, or_else, if◌then◌else◌,
}
use kubefin.Base.Int.{ℤ, ◌-ℤ◌}
use kubefin.External.Float64.{Float64, nought, hour_in_seconds}
use kubefin.Agent.Values
use kubefin.Analyzer.Goroutines.{wait, failure_of}
use kubefin.Analyzer.Query.{Sample, Backend}
use kubefin.Analyzer.Query.Promql
use kubefin.Analyzer.ClusterMetrics.{ClusterBasicProperty, new_property}
use kubefin.Analyzer.ClusterMetrics.OneCluster.{by_label}
use kubefin.Analyzer.ClusterMetrics.Properties.{ClusterCostsSummary}

-- `for clusterId, sample := range allClustersProperty { m[clusterId] = sample.ClusterActiveTime }`
unfoldable pub active_times :
    {F : Type 0} → Dict String (ClusterBasicProperty F) → Dict String F → Dict String F
active_times [] m = m
active_times ((cluster_id, property) ∷ properties) m =
    active_times properties (put cluster_id (ClusterBasicProperty.cluster_active_time property) m)

unfoldable pub query_all_clusters_active_time :
    {F : Type 0} → Option (Dict String (ClusterBasicProperty F)) → Option (Dict String F)
query_all_clusters_active_time none = none
query_all_clusters_active_time (some properties) = some (active_times properties [])

unfoldable pub query_cluster_active_time : {F : Type 0} → Option (ClusterBasicProperty F) → Option F
query_cluster_active_time none = none
query_cluster_active_time (some property) = some (ClusterBasicProperty.cluster_active_time property)

module _ {F : Type 0} ⦃float : Float64 F⦄ where
  open float use {mul, div, of_ℕ}

  -- The summary of the three values and the active time.
  unfoldable pub costs_summary : F → F → F → F → ClusterCostsSummary F
  costs_summary cost_current active_time cpu_cost cpu_count = record {
    basic_property = new_property;
    cluster_month_cost_current = cost_current;
    cluster_month_estimate_cost =
        div (mul (of_ℕ 730) cost_current) (div active_time hour_in_seconds);
    cluster_avg_daily_cost = div (mul (of_ℕ 24) cost_current) (div active_time hour_in_seconds);
    cluster_avg_hourly_core_cost = div cpu_cost cpu_count;
  }

  -- The loop over the active times; a cluster that a map lacks reads zero.
  unfoldable pub costs_summaries :
      Dict String F
      → Dict String F
      → Dict String F
      → Dict String F
      → Dict String (ClusterCostsSummary F)
      → Dict String (ClusterCostsSummary F)
  costs_summaries [] month_cost cpu_cost cpu_count summaries = summaries
  costs_summaries ((cluster_id, active_time) ∷ rest) month_cost cpu_cost cpu_count summaries =
      costs_summaries rest month_cost cpu_cost cpu_count (
        put cluster_id
          (costs_summary (or_else nought (get cluster_id month_cost)) active_time
            (or_else nought (get cluster_id cpu_cost)) (or_else nought (get cluster_id cpu_count)))
          summaries)

  -- `if len(samples) == 0 { return 0, nil }` and the value of the first sample
  unfoldable pub first_value : List (Sample F) → F
  first_value [] = nought
  first_value (s ∷ samples) = s.value

  module _ (itoa : ℤ → String) (backend : Backend F) (start end : ℤ) where
    open backend use {query_instant}

    unfoldable pub query_all_clusters_current_month_costs : Option (Dict String F)
    query_all_clusters_current_month_costs =
        elim (query_instant (Promql.ql_nodes_total_costs_with_time_range itoa (end -ℤ start))) [
          | none ↦ none
          | some ret ↦ some (by_label (λ v. v) Values.cluster_id_label_key ret [])
        ]

    unfoldable pub query_all_clusters_cpu_total_cost : Option (Dict String F)
    query_all_clusters_cpu_total_cost =
        elim (query_instant (Promql.ql_node_cpu_total_cost_with_time_range itoa (end -ℤ start))) [
          | none ↦ none
          | some ret ↦ some (by_label (λ v. v) Values.cluster_id_label_key ret [])
        ]

    unfoldable pub query_all_clusters_cpu_total_count : Option (Dict String F)
    query_all_clusters_cpu_total_count =
        elim (query_instant
          (Promql.ql_node_cpu_total_count_with_time_range itoa "cpu" (end -ℤ start))) [
            | none ↦ none
            | some ret ↦ some (by_label (λ v. v) Values.cluster_id_label_key ret [])
          ]

    unfoldable pub query_all_clusters_current_month_cost :
        Option (Dict String (ClusterBasicProperty F))
        → List ℕ
        → Option (Dict String (ClusterCostsSummary F))
    query_all_clusters_current_month_cost properties schedule =
        let active_time = query_all_clusters_active_time properties in
        let month_cost = query_all_clusters_current_month_costs in
        let cpu_cost = query_all_clusters_cpu_total_cost in
        let cpu_count = query_all_clusters_cpu_total_count in
        let calls =
          failure_of active_time
          ∷ failure_of month_cost
          ∷ failure_of cpu_cost
          ∷ failure_of cpu_count
          ∷ [] in
        if wait schedule calls
        then none
        else some (
            costs_summaries (or_else [] active_time) (or_else [] month_cost) (or_else [] cpu_cost)
              (or_else [] cpu_count) [])

    module _ (cluster_id : String) where
      unfoldable pub query_cluster_current_month_costs : Option F
      query_cluster_current_month_costs =
          let promql =
            Promql.ql_nodes_total_costs_from_cluster_with_time_range itoa cluster_id
              (end -ℤ start) in
          elim (query_instant promql) [ none ↦ none | some samples ↦ some (first_value samples) ]

      unfoldable pub query_cluster_cpu_total_cost : Option F
      query_cluster_cpu_total_cost =
          let promql =
            Promql.ql_node_cpu_total_cost_from_cluster_with_time_range itoa cluster_id
              (end -ℤ start) in
          elim (query_instant promql) [ none ↦ none | some samples ↦ some (first_value samples) ]

      unfoldable pub query_cluster_cpu_total_count : Option F
      query_cluster_cpu_total_count =
          let promql =
            Promql.ql_node_resource_total_count_from_cluster_with_time_range itoa cluster_id "cpu"
              (end -ℤ start) in
          elim (query_instant promql) [ none ↦ none | some samples ↦ some (first_value samples) ]

      unfoldable pub query_cluster_current_month_cost :
          Option (ClusterBasicProperty F) → List ℕ → Option (ClusterCostsSummary F)
      query_cluster_current_month_cost property schedule =
          let active_time = query_cluster_active_time property in
          let month_cost = query_cluster_current_month_costs in
          let cpu_cost = query_cluster_cpu_total_cost in
          let cpu_count = query_cluster_cpu_total_count in
          let calls =
            failure_of active_time
            ∷ failure_of month_cost
            ∷ failure_of cpu_cost
            ∷ failure_of cpu_count
            ∷ [] in
          if wait schedule calls
          then none
          else some (
              costs_summary (or_else nought month_cost) (or_else nought active_time)
                (or_else nought cpu_cost) (or_else nought cpu_count))
