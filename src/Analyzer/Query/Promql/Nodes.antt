-- ===== src/Analyzer/Query/Promql/Nodes.antt =====
-- The queries of the costs and resources of nodes (pkg/analyzer/query/promql.go).
use kubefin.Base.{String, [], ◌∷◌, concat}
use kubefin.Base.Int.{ℤ}
use kubefin.Agent.Values

unfoldable pub ql_nodes_total_hourly_cost_from_cluster_with_time_range :
    (ℤ → String) → String → ℤ → String
ql_nodes_total_hourly_cost_from_cluster_with_time_range itoa cluster_id seconds = concat (
    "sum(sum_over_time("
    ∷ Values.node_total_hourly_cost_metrics_name
    ∷ "{cluster_id='"
    ∷ cluster_id
    ∷ "'}["
    ∷ (itoa seconds)
    ∷ "s]))/240"
    ∷ [])

unfoldable pub ql_nodes_total_hourly_billing_mode_cost_from_cluster_with_time_range :
    (ℤ → String) → String → ℤ → String
ql_nodes_total_hourly_billing_mode_cost_from_cluster_with_time_range itoa cluster_id seconds =
    concat (
      "sum(sum_over_time("
      ∷ Values.node_total_hourly_cost_metrics_name
      ∷ "{cluster_id='"
      ∷ cluster_id
      ∷ "'}["
      ∷ (itoa seconds)
      ∷ "s])/240) by (billing_mode)"
      ∷ [])

unfoldable pub ql_node_cpu_total_cost_from_cluster_with_time_range :
    (ℤ → String) → String → ℤ → String
ql_node_cpu_total_cost_from_cluster_with_time_range itoa cluster_id seconds = concat (
    "sum(sum_over_time("
    ∷ Values.node_resource_hourly_cost_metrics_name
    ∷ "{cluster_id='"
    ∷ cluster_id
    ∷ "',resource='cpu'}["
    ∷ (itoa seconds)
    ∷ "s]))/240"
    ∷ [])

unfoldable pub ql_node_resource_total_cost_from_cluster_with_time_range :
    (ℤ → String) → String → ℤ → String
ql_node_resource_total_cost_from_cluster_with_time_range itoa cluster_id seconds = concat (
    "sum(sum_over_time("
    ∷ Values.node_resource_hourly_cost_metrics_name
    ∷ "{cluster_id='"
    ∷ cluster_id
    ∷ "'}["
    ∷ (itoa seconds)
    ∷ "s])/240) by (resource)"
    ∷ [])

unfoldable pub ql_node_cpu_total_cost_with_time_range : (ℤ → String) → ℤ → String
ql_node_cpu_total_cost_with_time_range itoa seconds = concat (
    "sum(sum_over_time("
    ∷ Values.node_resource_hourly_cost_metrics_name
    ∷ "{resource='cpu'}["
    ∷ (itoa seconds)
    ∷ "s])/240) by (cluster_id)"
    ∷ [])

unfoldable pub ql_node_resource_total_count_from_cluster_with_time_range :
    (ℤ → String) → String → String → ℤ → String
ql_node_resource_total_count_from_cluster_with_time_range itoa cluster_id resource_type seconds =
    concat (
      "sum(sum_over_time("
      ∷ Values.node_resource_total_metrics_name
      ∷ "{cluster_id='"
      ∷ cluster_id
      ∷ "',resource='"
      ∷ resource_type
      ∷ "'}["
      ∷ (itoa seconds)
      ∷ "s]))/240"
      ∷ [])

unfoldable pub ql_node_cpu_total_count_with_time_range : (ℤ → String) → String → ℤ → String
ql_node_cpu_total_count_with_time_range itoa resource_type seconds = concat (
    "sum(sum_over_time("
    ∷ Values.node_resource_total_metrics_name
    ∷ "{resource='"
    ∷ resource_type
    ∷ "'}["
    ∷ (itoa seconds)
    ∷ "s])/240) by (cluster_id)"
    ∷ [])

unfoldable pub ql_node_resource_usage_count_from_cluster_with_time_range :
    (ℤ → String) → String → String → ℤ → String
ql_node_resource_usage_count_from_cluster_with_time_range itoa cluster_id resource_type seconds =
    concat (
      "sum(sum_over_time("
      ∷ Values.node_resource_usage_metrics_name
      ∷ "{cluster_id='"
      ∷ cluster_id
      ∷ "',resource='"
      ∷ resource_type
      ∷ "'}["
      ∷ (itoa seconds)
      ∷ "s]))/240"
      ∷ [])

unfoldable pub ql_nodes_total_costs_from_cluster_with_time_range :
    (ℤ → String) → String → ℤ → String
ql_nodes_total_costs_from_cluster_with_time_range itoa cluster_id seconds = concat (
    "sum(sum_over_time("
    ∷ Values.node_total_hourly_cost_metrics_name
    ∷ "{cluster_id='"
    ∷ cluster_id
    ∷ "'}["
    ∷ (itoa seconds)
    ∷ "s]))/240"
    ∷ [])

unfoldable pub ql_nodes_total_costs_with_time_range : (ℤ → String) → ℤ → String
ql_nodes_total_costs_with_time_range itoa seconds = concat (
    "sum(sum_over_time("
    ∷ Values.node_total_hourly_cost_metrics_name
    ∷ "["
    ∷ (itoa seconds)
    ∷ "s])/240) by (cluster_id)"
    ∷ [])
