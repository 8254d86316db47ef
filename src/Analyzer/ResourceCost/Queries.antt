-- ===== src/Analyzer/ResourceCost/Queries.antt =====
-- The queries of the costs of resources (pkg/analyzer/server/implementation/resource_cost.go).
use kubefin.Base.{
  ℕ, String, ◌==◌, nat_key, string_key, Option, none, some, List, [], ◌∷◌, Dict, put, or_else,
  if◌then◌else◌,
}
use kubefin.Base.Int.{ℤ}
use kubefin.External.Float64.{Float64}
use kubefin.Agent.Values
use kubefin.Analyzer.Goroutines.{wait, failure_of}
use kubefin.Analyzer.Query.{SampleStream, Backend}
use kubefin.Analyzer.Query.Promql
use kubefin.Analyzer.Series.{label, by_time, by_key, first_by_time}
use kubefin.Analyzer.WorkloadCost.Pods.{Rows}
use kubefin.Analyzer.ResourceCost.{
  ClusterResourceCostList, cluster_resource_cost, convert_cluster_resource_cost_to_list,
}

module _ {F : Type 0} ⦃float : Float64 F⦄ where
  -- The loop over `ret` with its `switch`.
  unfoldable pub by_cpu_and_memory : List (SampleStream F) → Rows F → Rows F
  by_cpu_and_memory [] m = m
  by_cpu_and_memory (s ∷ ret) m =
      let resource_type = label Values.resource_type_label_key s.metric in
      let values = by_time s.values [] in
      by_cpu_and_memory ret (
        if resource_type == "cpu"
        then put "cpu" values m
        else if resource_type == "memory"
        then put "memory" values m
        else m)

  module _ (itoa : ℤ → String) (backend : Backend F) (cluster_id : String)
      (start end step_seconds : ℤ) where
    open backend use {query_range_with_step}

    unfoldable pub query_node_total_cost : Option (Dict ℕ F)
    query_node_total_cost =
        let promql =
          Promql.ql_nodes_total_hourly_cost_from_cluster_with_time_range itoa cluster_id
            step_seconds in
        elim (query_range_with_step promql start end step_seconds) [
          | none ↦ none
          | some ret ↦ some (first_by_time ret)
        ]

    unfoldable pub query_node_billing_mode_cost : Option (Rows F)
    query_node_billing_mode_cost =
        let promql =
          Promql.ql_nodes_total_hourly_billing_mode_cost_from_cluster_with_time_range itoa
            cluster_id step_seconds in
        elim (query_range_with_step promql start end step_seconds) [
          | none ↦ none
          | some ret ↦ some (by_key (label Values.billing_mode_label_key) ret [])
        ]

    unfoldable pub query_node_resource_total_cost : Option (Rows F)
    query_node_resource_total_cost =
        let promql =
          Promql.ql_node_resource_total_cost_from_cluster_with_time_range itoa cluster_id
            step_seconds in
        elim (query_range_with_step promql start end step_seconds) [
          | none ↦ none
          | some ret ↦ some (by_cpu_and_memory ret [])
        ]

    unfoldable pub query_node_cpu_total_hour : Option (Dict ℕ F)
    query_node_cpu_total_hour =
        let promql =
          Promql.ql_node_resource_total_count_from_cluster_with_time_range itoa cluster_id "cpu"
            step_seconds in
        elim (query_range_with_step promql start end step_seconds) [
          | none ↦ none
          | some ret ↦ some (first_by_time ret)
        ]

    unfoldable pub query_node_cpu_usage_hour : Option (Dict ℕ F)
    query_node_cpu_usage_hour =
        let promql =
          Promql.ql_node_resource_usage_count_from_cluster_with_time_range itoa cluster_id "cpu"
            step_seconds in
        elim (query_range_with_step promql start end step_seconds) [
          | none ↦ none
          | some ret ↦ some (first_by_time ret)
        ]

    unfoldable pub query_node_ram_total_hour : Option (Dict ℕ F)
    query_node_ram_total_hour =
        let promql =
          Promql.ql_node_resource_total_count_from_cluster_with_time_range itoa cluster_id "memory"
            step_seconds in
        elim (query_range_with_step promql start end step_seconds) [
          | none ↦ none
          | some ret ↦ some (first_by_time ret)
        ]

    unfoldable pub query_node_ram_usage_hour : Option (Dict ℕ F)
    query_node_ram_usage_hour =
        let promql =
          Promql.ql_node_resource_usage_count_from_cluster_with_time_range itoa cluster_id "memory"
            step_seconds in
        elim (query_range_with_step promql start end step_seconds) [
          | none ↦ none
          | some ret ↦ some (first_by_time ret)
        ]

  unfoldable pub query_cluster_resource_cost :
      (ℤ → String) → Backend F → String → ℤ → ℤ → ℤ → List ℕ → Option (ClusterResourceCostList F)
  query_cluster_resource_cost itoa backend cluster_id start end step_seconds schedule =
      let total_costs = query_node_total_cost itoa backend cluster_id start end step_seconds in
      let billing_mode =
        query_node_billing_mode_cost itoa backend cluster_id start end step_seconds in
      let resources =
        query_node_resource_total_cost itoa backend cluster_id start end step_seconds in
      let cpu_total = query_node_cpu_total_hour itoa backend cluster_id start end step_seconds in
      let cpu_usage = query_node_cpu_usage_hour itoa backend cluster_id start end step_seconds in
      let ram_total = query_node_ram_total_hour itoa backend cluster_id start end step_seconds in
      let ram_usage = query_node_ram_usage_hour itoa backend cluster_id start end step_seconds in
      let calls =
        failure_of total_costs
        ∷ failure_of billing_mode
        ∷ failure_of resources
        ∷ failure_of cpu_total
        ∷ failure_of cpu_usage
        ∷ failure_of ram_total
        ∷ failure_of ram_usage
        ∷ [] in
      if wait schedule calls
      then none
      else some (
          convert_cluster_resource_cost_to_list cluster_id (
            cluster_resource_cost (or_else [] total_costs) (or_else [] billing_mode)
              (or_else [] resources) (or_else [] cpu_total) (or_else [] cpu_usage)
              (or_else [] ram_total) (or_else [] ram_usage) step_seconds))
