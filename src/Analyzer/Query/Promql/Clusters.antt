-- ===== src/Analyzer/Query/Promql/Clusters.antt =====
-- The queries of the metrics and the activity of clusters (pkg/analyzer/query/promql.go).
use kubefin.Base.{String, [], ◌∷◌, concat}
use kubefin.Base.Int.{ℤ}
use kubefin.Agent.Values

unfoldable pub ql_sum_nodes_resource_total_from_cluster : String → String → String
ql_sum_nodes_resource_total_from_cluster cluster_id resource_type = concat (
    "sum(" ∷ Values.node_resource_total_metrics_name ∷ "{cluster_id='" ∷ cluster_id ∷ "',resource='"
    ∷ resource_type ∷ "'})" ∷ [])

unfoldable pub ql_sum_nodes_resource_available_from_cluster : String → String → String
ql_sum_nodes_resource_available_from_cluster cluster_id resource_type = concat (
    "sum(" ∷ Values.node_resource_available_metrics_name ∷ "{cluster_id='" ∷ cluster_id
    ∷ "',resource='" ∷ resource_type ∷ "'})" ∷ [])

unfoldable pub ql_sum_nodes_resource_usage_from_cluster : String → String → String
ql_sum_nodes_resource_usage_from_cluster cluster_id resource_type = concat (
    "sum(" ∷ Values.node_resource_usage_metrics_name ∷ "{cluster_id='" ∷ cluster_id ∷ "',resource='"
    ∷ resource_type ∷ "'})" ∷ [])

unfoldable pub ql_sum_nodes_resource_system_taken_from_cluster : String → String → String
ql_sum_nodes_resource_system_taken_from_cluster cluster_id resource_type = concat (
    "sum(" ∷ Values.node_resource_system_taken_name ∷ "{cluster_id='" ∷ cluster_id ∷ "',resource='"
    ∷ resource_type ∷ "'})" ∷ [])

unfoldable pub ql_sum_node_resource_request_from_cluster : String → String → String
ql_sum_node_resource_request_from_cluster cluster_id resource_type = concat (
    "sum(" ∷ Values.node_resource_requested_name ∷ "{cluster_id='" ∷ cluster_id ∷ "',resource='"
    ∷ resource_type ∷ "'})" ∷ [])

abbrev pub ql_nodes_number : String
ql_nodes_number =
    concat (
      "count(" ∷ Values.node_total_hourly_cost_metrics_name ∷ ") by (cluster_id,billing_mode)" ∷ [])

abbrev pub ql_pods_number : String
ql_pods_number =
    concat ("count(" ∷ Values.pod_resource_cost_metrics_name ∷ ") by (cluster_id,scheduled)" ∷ [])

abbrev pub ql_resource_total : String
ql_resource_total =
    concat ("sum(" ∷ Values.node_resource_total_metrics_name ∷ ") by (cluster_id,resource)" ∷ [])

abbrev pub ql_resource_usage : String
ql_resource_usage =
    concat ("sum(" ∷ Values.node_resource_usage_metrics_name ∷ ") by (cluster_id,resource)" ∷ [])

abbrev pub ql_resource_request : String
ql_resource_request =
    concat ("sum(" ∷ Values.node_resource_requested_name ∷ ") by (cluster_id,resource)" ∷ [])

abbrev pub ql_resource_available : String
ql_resource_available =
    concat
      ("sum(" ∷ Values.node_resource_available_metrics_name ∷ ") by (cluster_id,resource)" ∷ [])

abbrev pub ql_resoruce_system_taken : String
ql_resoruce_system_taken =
    concat ("sum(" ∷ Values.node_resource_system_taken_name ∷ ") by (cluster_id,resource)" ∷ [])

unfoldable pub ql_nodes_number_from_cluster : String → String
ql_nodes_number_from_cluster cluster_id = concat (
    "count(" ∷ Values.node_total_hourly_cost_metrics_name ∷ "{cluster_id='" ∷ cluster_id
    ∷ "'}) by (billing_mode)" ∷ [])

unfoldable pub ql_pods_number_from_cluster : String → String
ql_pods_number_from_cluster cluster_id = concat (
    "count(" ∷ Values.pod_resource_cost_metrics_name ∷ "{cluster_id='" ∷ cluster_id
    ∷ "'}) by (scheduled)" ∷ [])

unfoldable pub ql_resource_total_from_cluster : String → String
ql_resource_total_from_cluster cluster_id = concat (
    "sum(" ∷ Values.node_resource_total_metrics_name ∷ "{cluster_id='" ∷ cluster_id
    ∷ "'}) by (resource)" ∷ [])

unfoldable pub ql_resource_usage_from_cluster : String → String
ql_resource_usage_from_cluster cluster_id = concat (
    "sum(" ∷ Values.node_resource_usage_metrics_name ∷ "{cluster_id='" ∷ cluster_id
    ∷ "'}) by (resource)" ∷ [])

unfoldable pub ql_resource_request_from_cluster : String → String
ql_resource_request_from_cluster cluster_id = concat (
    "sum(" ∷ Values.node_resource_requested_name ∷ "{cluster_id='" ∷ cluster_id
    ∷ "'}) by (resource)" ∷ [])

unfoldable pub ql_resource_available_from_cluster : String → String
ql_resource_available_from_cluster cluster_id = concat (
    "sum(" ∷ Values.node_resource_available_metrics_name ∷ "{cluster_id='" ∷ cluster_id
    ∷ "'}) by (resource)" ∷ [])

unfoldable pub ql_resource_system_taken_from_cluster : String → String
ql_resource_system_taken_from_cluster cluster_id = concat (
    "sum(" ∷ Values.node_resource_system_taken_name ∷ "{cluster_id='" ∷ cluster_id
    ∷ "'}) by (resource)" ∷ [])

unfoldable pub ql_total_pods_number_from_cluster : String → String
ql_total_pods_number_from_cluster cluster_id = concat (
    "count(count(" ∷ Values.pod_resource_request_metrics_name ∷ "{cluster_id='" ∷ cluster_id
    ∷ "'}) by (pod))" ∷ [])

unfoldable pub ql_pods_number_by_schedule_status_from_cluster : String → String → String
ql_pods_number_by_schedule_status_from_cluster cluster_id scheduled = concat (
    "count(count(" ∷ Values.pod_resource_request_metrics_name ∷ "{cluster_id='" ∷ cluster_id
    ∷ "',scheduled='" ∷ scheduled ∷ "'}) by (pod))" ∷ [])

unfoldable pub ql_cluster_active_time_with_time_range : (ℤ → String) → String → ℤ → String
ql_cluster_active_time_with_time_range itoa cluster_id seconds = concat (
    "count_over_time("
    ∷ Values.cluster_active_metrics_name
    ∷ "{cluster_id='"
    ∷ cluster_id
    ∷ "'}["
    ∷ (itoa seconds)
    ∷ "s])*15"
    ∷ [])

abbrev pub ql_all_clusters_activity : String
ql_all_clusters_activity = concat ("kubefin_cluster_active" ∷ [])

unfoldable pub ql_cluster_activity : String → String
ql_cluster_activity cluster_id =
    concat ("kubefin_cluster_active{cluster_id='" ∷ cluster_id ∷ "'}" ∷ [])

unfoldable pub ql_cluster_active_time : (ℤ → String) → String → ℤ → String
ql_cluster_active_time itoa cluster_id seconds = concat (
    "count_over_time("
    ∷ Values.cluster_active_metrics_name
    ∷ "{cluster_id='"
    ∷ cluster_id
    ∷ "'}["
    ∷ (itoa seconds)
    ∷ "s])*15"
    ∷ [])

unfoldable pub ql_all_clusters_active_time : (ℤ → String) → ℤ → String
ql_all_clusters_active_time itoa seconds =
    concat (
      "count_over_time("
      ∷ Values.cluster_active_metrics_name
      ∷ "["
      ∷ (itoa seconds)
      ∷ "s])*15"
      ∷ [])
