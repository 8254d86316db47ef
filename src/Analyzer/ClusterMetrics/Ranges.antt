-- ===== src/Analyzer/ClusterMetrics/Ranges.antt =====
-- The values of one resource of a cluster over a range of time, and the summary of the five
-- (pkg/analyzer/server/implementation/cluster_metrics.go, pkg/analyzer/types/types.go).
use kubefin.Base.{
  ℕ, String, ◌==◌, string_key, Option, none, some, List, [], ◌∷◌, or_else, if◌then◌else◌,
}
use kubefin.Base.Int.{ℤ}
use kubefin.Analyzer.Goroutines.{wait, failure_of}
use kubefin.Analyzer.Query.{SampleStream, Backend}
use kubefin.Analyzer.Query.Promql

pub record ClusterResourceMetrics (F : Type 0) : Type 0 where
  pub cluster_id : String
  pub resource_type : String
  pub unit : String
  pub resource_total_values : List (ℕ × F)
  pub resource_system_taken_values : List (ℕ × F)
  pub resource_available_values : List (ℕ × F)
  pub resource_request_values : List (ℕ × F)
  pub resource_usage_values : List (ℕ × F)

-- `if len(ret) != 1 { return nil, err }` and `ret[0].Values`
unfoldable pub only_values : {F : Type 0} → List (SampleStream F) → Option (List (ℕ × F))
only_values [] = none
only_values (s ∷ []) = some s.values
only_values (s ∷ t ∷ ret) = none

module _ {F : Type 0} (backend : Backend F) (cluster_id resource_type : String)
    (start end step_seconds : ℤ) where
  open backend use {query_range_with_step}

  unfoldable pub query_cluster_resource_total_with_time_range : Option (List (ℕ × F))
  query_cluster_resource_total_with_time_range =
      let promql = Promql.ql_sum_nodes_resource_total_from_cluster cluster_id resource_type in
      elim (query_range_with_step promql start end step_seconds) [
        | none ↦ none
        | some ret ↦ only_values ret
      ]

  unfoldable pub query_cluster_resource_available_with_time_range : Option (List (ℕ × F))
  query_cluster_resource_available_with_time_range =
      let promql = Promql.ql_sum_nodes_resource_available_from_cluster cluster_id resource_type in
      elim (query_range_with_step promql start end step_seconds) [
        | none ↦ none
        | some ret ↦ only_values ret
      ]

  unfoldable pub query_cluster_resource_system_taken_with_time_range : Option (List (ℕ × F))
  query_cluster_resource_system_taken_with_time_range =
      let promql =
        Promql.ql_sum_nodes_resource_system_taken_from_cluster cluster_id resource_type in
      elim (query_range_with_step promql start end step_seconds) [
        | none ↦ none
        | some ret ↦ only_values ret
      ]

  unfoldable pub query_cluster_resource_request_with_time_range : Option (List (ℕ × F))
  query_cluster_resource_request_with_time_range =
      let promql = Promql.ql_sum_node_resource_request_from_cluster cluster_id resource_type in
      elim (query_range_with_step promql start end step_seconds) [
        | none ↦ none
        | some ret ↦ only_values ret
      ]

  unfoldable pub query_cluster_resource_usage_with_time_range : Option (List (ℕ × F))
  query_cluster_resource_usage_with_time_range =
      let promql = Promql.ql_sum_nodes_resource_usage_from_cluster cluster_id resource_type in
      elim (query_range_with_step promql start end step_seconds) [
        | none ↦ none
        | some ret ↦ only_values ret
      ]

  unfoldable pub query_cluster_resources_summary_with_time_range :
      List ℕ → Option (ClusterResourceMetrics F)
  query_cluster_resources_summary_with_time_range schedule =
      let calls =
        failure_of query_cluster_resource_total_with_time_range
        ∷ failure_of query_cluster_resource_available_with_time_range
        ∷ failure_of query_cluster_resource_system_taken_with_time_range
        ∷ failure_of query_cluster_resource_request_with_time_range
        ∷ failure_of query_cluster_resource_usage_with_time_range
        ∷ [] in
      if wait schedule calls
      then none
      else some (record {
        cluster_id = cluster_id;
        resource_type = resource_type;
        unit = if resource_type == "memory" then "gb" else "core";
        resource_total_values = or_else [] query_cluster_resource_total_with_time_range;
        resource_system_taken_values =
            or_else [] query_cluster_resource_system_taken_with_time_range;
        resource_available_values = or_else [] query_cluster_resource_available_with_time_range;
        resource_request_values = or_else [] query_cluster_resource_request_with_time_range;
        resource_usage_values = or_else [] query_cluster_resource_usage_with_time_range;
      })
