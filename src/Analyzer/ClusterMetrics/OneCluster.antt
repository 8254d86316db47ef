-- ===== src/Analyzer/ClusterMetrics/OneCluster.antt =====
-- The metrics of one cluster (pkg/analyzer/server/implementation/cluster_metrics.go).
use kubefin.Base.{
  ℕ, String, string_key, Option, none, some, List, [], ◌∷◌, Dict, put, or_else, if◌then◌else◌,
}
use kubefin.External.Float64.{Float64}
use kubefin.Agent.Values
use kubefin.Analyzer.Goroutines.{wait, failure_of}
use kubefin.Analyzer.Query.{Sample, Backend}
use kubefin.Analyzer.Query.Promql
use kubefin.Analyzer.Series.{label}
use kubefin.Analyzer.ClusterMetrics.{
  ClusterResourcesSummary, count_nodes, count_pods, sum_resources, new_summary,
}

-- `for _, t := range ret { m[t.Metric[name]] = ... }`
unfoldable pub by_label :
    {F A : Type 0} → (F → A) → String → List (Sample F) → Dict String A → Dict String A
by_label value_of name [] m = m
by_label value_of name (t ∷ ret) m =
    by_label value_of name ret (put (label name t.metric) (value_of t.value) m)

module _ {F : Type 0} ⦃float : Float64 F⦄ where
  unfoldable pub parse_cluster_nodes_number :
      Dict String ℕ → ClusterResourcesSummary F → ClusterResourcesSummary F
  parse_cluster_nodes_number nodes_number d =
      let counts = count_nodes nodes_number (
        d.node_numbers_current, d.on_demand_billing_node_numbers_current,
        d.spot_billing_node_numbers_current,
      ) in
      record d {
        node_numbers_current = counts.0;
        on_demand_billing_node_numbers_current = counts.1;
        spot_billing_node_numbers_current = counts.2;
      }

  unfoldable pub parse_cluster_pods_number :
      Dict String ℕ → ClusterResourcesSummary F → ClusterResourcesSummary F
  parse_cluster_pods_number pods_number d =
      let counts =
        count_pods pods_number
          (d.pod_total_current, d.pod_scheduled_current, d.pod_unscheduled_current) in
      record d {
        pod_total_current = counts.0;
        pod_scheduled_current = counts.1;
        pod_unscheduled_current = counts.2;
      }

  unfoldable pub parse_cluster_resource_total :
      Dict String F → ClusterResourcesSummary F → ClusterResourcesSummary F
  parse_cluster_resource_total resource_total d =
      let sums = sum_resources resource_total (d.cpu_core_total, d.ram_gib_total) in
      record d { cpu_core_total = sums.0; ram_gib_total = sums.1 }

  unfoldable pub parse_cluster_resource_usage :
      Dict String F → ClusterResourcesSummary F → ClusterResourcesSummary F
  parse_cluster_resource_usage resource_usage d =
      let sums = sum_resources resource_usage (d.cpu_core_usage, d.ram_gib_usage) in
      record d { cpu_core_usage = sums.0; ram_gib_usage = sums.1 }

  unfoldable pub parse_cluster_resource_request :
      Dict String F → ClusterResourcesSummary F → ClusterResourcesSummary F
  parse_cluster_resource_request resource_request d =
      let sums = sum_resources resource_request (d.cpu_core_request, d.ram_gib_request) in
      record d { cpu_core_request = sums.0; ram_gib_request = sums.1 }

  unfoldable pub parse_cluster_resource_available :
      Dict String F → ClusterResourcesSummary F → ClusterResourcesSummary F
  parse_cluster_resource_available resource_available d =
      let sums = sum_resources resource_available (d.cpu_core_available, d.ram_gib_available) in
      record d { cpu_core_available = sums.0; ram_gib_available = sums.1 }

  unfoldable pub parse_cluster_resource_system_taken :
      Dict String F → ClusterResourcesSummary F → ClusterResourcesSummary F
  parse_cluster_resource_system_taken resource_system_taken d =
      let sums =
        sum_resources resource_system_taken (d.cpu_core_system_taken, d.ram_gib_system_taken) in
      record d { cpu_core_system_taken = sums.0; ram_gib_system_taken = sums.1 }

  -- The summary that `QueryClusterCurrentResources` fills after the wait.
  unfoldable pub one_cluster :
      Dict String ℕ
      → Dict String ℕ
      → Dict String F
      → Dict String F
      → Dict String F
      → Dict String F
      → Dict String F
      → ClusterResourcesSummary F
  one_cluster nodes pods total usage request available system_taken =
      parse_cluster_resource_system_taken system_taken (
        parse_cluster_resource_available available (
          parse_cluster_resource_request request (
            parse_cluster_resource_usage usage (
              parse_cluster_resource_total total
                (parse_cluster_pods_number pods (parse_cluster_nodes_number nodes new_summary))))))

  module _ (backend : Backend F) (to_int64 : F → ℕ) (cluster_id : String) where
    open backend use {query_instant}

    unfoldable pub query_cluster_nodes_number : Option (Dict String ℕ)
    query_cluster_nodes_number =
        elim (query_instant (Promql.ql_nodes_number_from_cluster cluster_id)) [
          | none ↦ none
          | some ret ↦ some (by_label to_int64 Values.billing_mode_label_key ret [])
        ]

    unfoldable pub query_cluster_pods_number : Option (Dict String ℕ)
    query_cluster_pods_number =
        elim (query_instant (Promql.ql_pods_number_from_cluster cluster_id)) [
          | none ↦ none
          | some ret ↦ some (by_label to_int64 Values.pod_scheduled_key ret [])
        ]

    unfoldable pub query_cluster_resource_total : Option (Dict String F)
    query_cluster_resource_total =
        elim (query_instant (Promql.ql_resource_total_from_cluster cluster_id)) [
          | none ↦ none
          | some ret ↦ some (by_label (λ v. v) Values.resource_type_label_key ret [])
        ]

    unfoldable pub query_cluster_resoruce_usage : Option (Dict String F)
    query_cluster_resoruce_usage =
        elim (query_instant (Promql.ql_resource_usage_from_cluster cluster_id)) [
          | none ↦ none
          | some ret ↦ some (by_label (λ v. v) Values.resource_type_label_key ret [])
        ]

    unfoldable pub query_cluster_resoruce_request : Option (Dict String F)
    query_cluster_resoruce_request =
        elim (query_instant (Promql.ql_resource_request_from_cluster cluster_id)) [
          | none ↦ none
          | some ret ↦ some (by_label (λ v. v) Values.resource_type_label_key ret [])
        ]

    unfoldable pub query_cluster_resource_available : Option (Dict String F)
    query_cluster_resource_available =
        elim (query_instant (Promql.ql_resource_available_from_cluster cluster_id)) [
          | none ↦ none
          | some ret ↦ some (by_label (λ v. v) Values.resource_type_label_key ret [])
        ]

    unfoldable pub query_cluster_resource_system_taken : Option (Dict String F)
    query_cluster_resource_system_taken =
        elim (query_instant (Promql.ql_resource_system_taken_from_cluster cluster_id)) [
          | none ↦ none
          | some ret ↦ some (by_label (λ v. v) Values.resource_type_label_key ret [])
        ]

  unfoldable pub query_cluster_current_resources :
      Backend F → (F → ℕ) → String → List ℕ → Option (ClusterResourcesSummary F)
  query_cluster_current_resources backend to_int64 cluster_id schedule =
      let nodes = query_cluster_nodes_number backend to_int64 cluster_id in
      let pods = query_cluster_pods_number backend to_int64 cluster_id in
      let total = query_cluster_resource_total backend to_int64 cluster_id in
      let usage = query_cluster_resoruce_usage backend to_int64 cluster_id in
      let request = query_cluster_resoruce_request backend to_int64 cluster_id in
      let available = query_cluster_resource_available backend to_int64 cluster_id in
      let system_taken = query_cluster_resource_system_taken backend to_int64 cluster_id in
      let calls =
        failure_of nodes
        ∷ failure_of pods
        ∷ failure_of total
        ∷ failure_of usage
        ∷ failure_of request
        ∷ failure_of available
        ∷ failure_of system_taken
        ∷ [] in
      if wait schedule calls
      then none
      else some (
          one_cluster (or_else [] nodes) (or_else [] pods) (or_else [] total) (or_else [] usage)
            (or_else [] request) (or_else [] available) (or_else [] system_taken))
