-- ===== src/Analyzer/Query/Promql/Workloads.antt =====
-- The queries of pods, workloads and namespaces (pkg/analyzer/query/promql.go).
use kubefin.Base.{String, [], ◌∷◌, concat}
use kubefin.Base.Int.{ℤ}
use kubefin.Agent.Values

unfoldable pub ql_pod_total_cost_from_cluster_with_time_range : (ℤ → String) → String → ℤ → String
ql_pod_total_cost_from_cluster_with_time_range itoa cluster_id seconds = concat (
    "sum(sum_over_time("
    ∷ Values.pod_resource_cost_metrics_name
    ∷ "{cluster_id='"
    ∷ cluster_id
    ∷ "'}["
    ∷ (itoa seconds)
    ∷ "s])/240) by (pod,namespace)"
    ∷ [])

unfoldable pub ql_pod_resource_request_from_cluster_with_time_range :
    (ℤ → String) → String → ℤ → String
ql_pod_resource_request_from_cluster_with_time_range itoa cluster_id seconds = concat (
    "sum(sum_over_time("
    ∷ Values.pod_resource_request_metrics_name
    ∷ "{cluster_id='"
    ∷ cluster_id
    ∷ "'}["
    ∷ (itoa seconds)
    ∷ "s])/240) by (pod,namespace,resource)"
    ∷ [])

unfoldable pub ql_pod_resource_usage_from_cluster_with_time_range :
    (ℤ → String) → String → ℤ → String
ql_pod_resource_usage_from_cluster_with_time_range itoa cluster_id seconds = concat (
    "sum(sum_over_time("
    ∷ Values.pod_resource_usage_metrics_name
    ∷ "{cluster_id='"
    ∷ cluster_id
    ∷ "'}["
    ∷ (itoa seconds)
    ∷ "s])/240) by (pod,namespace,resource)"
    ∷ [])

unfoldable pub ql_workload_total_cost_from_cluster_with_time_range :
    (ℤ → String) → String → String → ℤ → String
ql_workload_total_cost_from_cluster_with_time_range itoa cluster_id workload_type seconds = concat (
    "sum(sum_over_time("
    ∷ Values.workload_resource_cost_metrics_name
    ∷ "{cluster_id='"
    ∷ cluster_id
    ∷ "',workload_type=~'"
    ∷ workload_type
    ∷ "'}["
    ∷ (itoa seconds)
    ∷ "s])/240) by (namespace,workload_name,workload_type)"
    ∷ [])

unfoldable pub ql_workload_pod_from_cluster_with_time_range :
    (ℤ → String) → String → String → ℤ → String
ql_workload_pod_from_cluster_with_time_range itoa cluster_id workload_type seconds = concat (
    "sum(sum_over_time("
    ∷ Values.workload_pod_count_metrics_name
    ∷ "{cluster_id='"
    ∷ cluster_id
    ∷ "',workload_type=~'"
    ∷ workload_type
    ∷ "'}["
    ∷ (itoa seconds)
    ∷ "s])) by (namespace,workload_name,workload_type)"
    ∷ [])

unfoldable pub ql_workload_resource_request_from_cluster_with_time_range :
    (ℤ → String) → String → String → ℤ → String
ql_workload_resource_request_from_cluster_with_time_range itoa cluster_id workload_type seconds =
    concat (
      "sum(sum_over_time("
      ∷ Values.workload_resource_request_metrics_name
      ∷ "{cluster_id='"
      ∷ cluster_id
      ∷ "',workload_type=~'"
      ∷ workload_type
      ∷ "'}["
      ∷ (itoa seconds)
      ∷ "s])/240) by (namespace,workload_name,workload_type,resource)"
      ∷ [])

unfoldable pub ql_workload_resource_usage_from_cluster_with_time_range :
    (ℤ → String) → String → String → ℤ → String
ql_workload_resource_usage_from_cluster_with_time_range itoa cluster_id workload_type seconds =
    concat (
      "sum(sum_over_time("
      ∷ Values.workload_resource_usage_metrics_name
      ∷ "{cluster_id='"
      ∷ cluster_id
      ∷ "',workload_type=~'"
      ∷ workload_type
      ∷ "'}["
      ∷ (itoa seconds)
      ∷ "s])/240) by (namespace,workload_name,workload_type,resource)"
      ∷ [])

unfoldable pub ql_ns_total_cost_from_cluster_with_time_range : (ℤ → String) → String → ℤ → String
ql_ns_total_cost_from_cluster_with_time_range itoa cluster_id seconds = concat (
    "sum(sum_over_time("
    ∷ Values.pod_resource_cost_metrics_name
    ∷ "{cluster_id='"
    ∷ cluster_id
    ∷ "'}["
    ∷ (itoa seconds)
    ∷ "s])/240) by (namespace)"
    ∷ [])

unfoldable pub ql_ns_pod_from_cluster_with_time_range : (ℤ → String) → String → ℤ → String
ql_ns_pod_from_cluster_with_time_range itoa cluster_id seconds = concat (
    "sum(count_over_time("
    ∷ Values.pod_resource_cost_metrics_name
    ∷ "{cluster_id='"
    ∷ cluster_id
    ∷ "'}["
    ∷ (itoa seconds)
    ∷ "s])) by (namespace)"
    ∷ [])

unfoldable pub ql_ns_resource_request_from_cluster_with_time_range :
    (ℤ → String) → String → ℤ → String
ql_ns_resource_request_from_cluster_with_time_range itoa cluster_id seconds = concat (
    "sum(sum_over_time("
    ∷ Values.pod_resource_request_metrics_name
    ∷ "{cluster_id='"
    ∷ cluster_id
    ∷ "'}["
    ∷ (itoa seconds)
    ∷ "s])/240) by (namespace,resource)"
    ∷ [])

unfoldable pub ql_ns_resource_usage_from_cluster_with_time_range :
    (ℤ → String) → String → ℤ → String
ql_ns_resource_usage_from_cluster_with_time_range itoa cluster_id seconds = concat (
    "sum(sum_over_time("
    ∷ Values.pod_resource_usage_metrics_name
    ∷ "{cluster_id='"
    ∷ cluster_id
    ∷ "'}["
    ∷ (itoa seconds)
    ∷ "s])/240) by (namespace,resource)"
    ∷ [])
