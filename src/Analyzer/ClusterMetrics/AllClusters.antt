-- ===== src/Analyzer/ClusterMetrics/AllClusters.antt =====
-- The metrics of all clusters of a tenant (pkg/analyzer/server/implementation/cluster_metrics.go).
-- `to_int64` is the conversion of a sample's value, as 64 bits.
use kubefin.Base.{
  ℕ, String, string_key, Option, none, some, List, [], ◌∷◌, Dict, get, put, or_else, if◌then◌else◌,
}
use kubefin.External.Float64.{Float64, nought}
use kubefin.Agent.Values
use kubefin.Analyzer.Goroutines.{wait, failure_of}
use kubefin.Analyzer.Query.{Sample, Backend}
use kubefin.Analyzer.Query.Promql
use kubefin.Analyzer.Series.{label}
use kubefin.Analyzer.ClusterMetrics.{
  ClusterBasicProperty, ClusterResourcesSummary, count_nodes, count_pods, sum_resources,
  new_summary,
}

-- A map of clusters, of the values by billing mode, schedule status or kind of resource.
abbrev pub Clusters : Type 0 → Type 0
Clusters A = Dict String (Dict String A)

module _ {F A : Type 0} (value_of : F → A) where
  -- `for _, t := range ret`, with `if _, ok := m[clusterId]; !ok { m[clusterId] = ... }` and
  -- `m[clusterId][name] = ...`
  unfoldable pub by_cluster : String → List (Sample F) → Clusters A → Clusters A
  by_cluster name [] m = m
  by_cluster name (t ∷ ret) m =
      let cluster_id = label Values.cluster_id_label_key t.metric in
      by_cluster name ret (
        put cluster_id
          (put (label name t.metric) (value_of t.value) (or_else [] (get cluster_id m))) m)

  -- The same with a new map of one entry for each sample.
  unfoldable pub by_cluster_last : String → List (Sample F) → Clusters A → Clusters A
  by_cluster_last name [] m = m
  by_cluster_last name (t ∷ ret) m =
      let cluster_id = label Values.cluster_id_label_key t.metric in
      by_cluster_last name ret (put cluster_id ((label name t.metric, value_of t.value) ∷ []) m)

module _ {F : Type 0} ⦃float : Float64 F⦄ where
  -- `for clusterId, v := range ...` with `if _, ok := data[clusterId]; !ok { data[clusterId] = &...{} }`
  -- and the assignments to `data[clusterId]`
  unfoldable pub update_all :
      {A : Type 0}
      → (Dict String A → ClusterResourcesSummary F → ClusterResourcesSummary F)
      → Clusters A
      → Dict String (ClusterResourcesSummary F)
      → Dict String (ClusterResourcesSummary F)
  update_all set [] data_of = data_of
  update_all set ((cluster_id, v) ∷ rows) data_of =
      update_all set rows
        (put cluster_id (set v (or_else new_summary (get cluster_id data_of))) data_of)

  -- A new summary is assigned, whatever the old one is.
  unfoldable pub parse_all_clusters_nodes_number :
      Clusters ℕ → Dict String (ClusterResourcesSummary F) → Dict String (ClusterResourcesSummary F)
  parse_all_clusters_nodes_number = update_all (λ v old.
      let counts = count_nodes v (0, 0, 0) in
      record new_summary {
        node_numbers_current = counts.0;
        on_demand_billing_node_numbers_current = counts.1;
        spot_billing_node_numbers_current = counts.2;
      })

  unfoldable pub parse_all_clusters_pods_number :
      Clusters ℕ → Dict String (ClusterResourcesSummary F) → Dict String (ClusterResourcesSummary F)
  parse_all_clusters_pods_number = update_all (λ v d.
      let counts = count_pods v (0, 0, 0) in
      record d {
        pod_total_current = counts.0;
        pod_scheduled_current = counts.1;
        pod_unscheduled_current = counts.2;
      })

  unfoldable pub parse_all_clusters_resource_total :
      Clusters F → Dict String (ClusterResourcesSummary F) → Dict String (ClusterResourcesSummary F)
  parse_all_clusters_resource_total = update_all (λ v d.
      let sums = sum_resources v (nought, nought) in
      record d { cpu_core_total = sums.0; ram_gib_total = sums.1 })

  unfoldable pub parse_all_clusters_resource_usage :
      Clusters F → Dict String (ClusterResourcesSummary F) → Dict String (ClusterResourcesSummary F)
  parse_all_clusters_resource_usage = update_all (λ v d.
      let sums = sum_resources v (nought, nought) in
      record d { cpu_core_usage = sums.0; ram_gib_usage = sums.1 })

  unfoldable pub parse_all_clusters_resource_request :
      Clusters F → Dict String (ClusterResourcesSummary F) → Dict String (ClusterResourcesSummary F)
  parse_all_clusters_resource_request = update_all (λ v d.
      let sums = sum_resources v (nought, nought) in
      record d { cpu_core_request = sums.0; ram_gib_request = sums.1 })

  unfoldable pub parse_all_clusters_resource_available :
      Clusters F → Dict String (ClusterResourcesSummary F) → Dict String (ClusterResourcesSummary F)
  parse_all_clusters_resource_available = update_all (λ v d.
      let sums = sum_resources v (nought, nought) in
      record d { cpu_core_available = sums.0; ram_gib_available = sums.1 })

  unfoldable pub parse_all_clusters_resource_system_taken :
      Clusters F → Dict String (ClusterResourcesSummary F) → Dict String (ClusterResourcesSummary F)
  parse_all_clusters_resource_system_taken = update_all (λ v d.
      let sums = sum_resources v (nought, nought) in
      record d { cpu_core_system_taken = sums.0; ram_gib_system_taken = sums.1 })

  -- The map that `QueryAllClustersCurrentMetrics` fills after the wait.
  unfoldable pub all_clusters :
      Clusters ℕ
      → Clusters ℕ
      → Clusters F
      → Clusters F
      → Clusters F
      → Clusters F
      → Clusters F
      → Dict String (ClusterResourcesSummary F)
  all_clusters nodes pods total usage request available system_taken =
      parse_all_clusters_resource_system_taken system_taken (
        parse_all_clusters_resource_available available (
          parse_all_clusters_resource_request request (
            parse_all_clusters_resource_usage usage (
              parse_all_clusters_resource_total total
                (parse_all_clusters_pods_number pods (parse_all_clusters_nodes_number nodes []))))))

  -- A cluster whose property is missing keeps the property that it has.
  unfoldable pub convert_to_multi_clusters_resources_list :
      Dict String (ClusterResourcesSummary F)
      → Dict String (ClusterBasicProperty F)
      → List (ClusterResourcesSummary F)
  convert_to_multi_clusters_resources_list [] clusters_property = []
  convert_to_multi_clusters_resources_list ((cluster_id, v) ∷ cluster_metrics) clusters_property =
      record v { basic_property = or_else v.basic_property (get cluster_id clusters_property) }
      ∷ convert_to_multi_clusters_resources_list cluster_metrics clusters_property

  module _ (backend : Backend F) (to_int64 : F → ℕ) where
    open backend use {query_instant}

    unfoldable pub query_all_clusters_nodes_numer : Option (Clusters ℕ)
    query_all_clusters_nodes_numer = elim (query_instant Promql.ql_nodes_number) [
      | none ↦ none
      | some ret ↦ some (by_cluster to_int64 Values.billing_mode_label_key ret [])
    ]

    unfoldable pub query_all_clusters_pods_number : Option (Clusters ℕ)
    query_all_clusters_pods_number = elim (query_instant Promql.ql_pods_number) [
      | none ↦ none
      | some ret ↦ some (by_cluster_last to_int64 Values.pod_scheduled_key ret [])
    ]

    unfoldable pub query_all_clusters_resource_total : Option (Clusters F)
    query_all_clusters_resource_total = elim (query_instant Promql.ql_resource_total) [
      | none ↦ none
      | some ret ↦ some (by_cluster (λ v. v) Values.resource_type_label_key ret [])
    ]

    unfoldable pub query_all_clusters_resource_usage : Option (Clusters F)
    query_all_clusters_resource_usage = elim (query_instant Promql.ql_resource_usage) [
      | none ↦ none
      | some ret ↦ some (by_cluster (λ v. v) Values.resource_type_label_key ret [])
    ]

    unfoldable pub query_all_clusters_resource_request : Option (Clusters F)
    query_all_clusters_resource_request = elim (query_instant Promql.ql_resource_request) [
      | none ↦ none
      | some ret ↦ some (by_cluster (λ v. v) Values.resource_type_label_key ret [])
    ]

    unfoldable pub query_all_clusters_resource_available : Option (Clusters F)
    query_all_clusters_resource_available = elim (query_instant Promql.ql_resource_available) [
      | none ↦ none
      | some ret ↦ some (by_cluster (λ v. v) Values.resource_type_label_key ret [])
    ]

    unfoldable pub query_all_clusters_resource_system_taken : Option (Clusters F)
    query_all_clusters_resource_system_taken =
        elim (query_instant Promql.ql_resoruce_system_taken) [
          | none ↦ none
          | some ret ↦ some (by_cluster (λ v. v) Values.resource_type_label_key ret [])
        ]

  unfoldable pub query_all_clusters_current_metrics :
      Backend F → (F → ℕ) → List ℕ → Option (Dict String (ClusterResourcesSummary F))
  query_all_clusters_current_metrics backend to_int64 schedule =
      let nodes = query_all_clusters_nodes_numer backend to_int64 in
      let pods = query_all_clusters_pods_number backend to_int64 in
      let total = query_all_clusters_resource_total backend to_int64 in
      let usage = query_all_clusters_resource_usage backend to_int64 in
      let request = query_all_clusters_resource_request backend to_int64 in
      let available = query_all_clusters_resource_available backend to_int64 in
      let system_taken = query_all_clusters_resource_system_taken backend to_int64 in
      let calls =
        failure_of nodes
        ∷ failure_of pods
        ∷ failure_of total
        ∷ failure_of usage
        ∷ failure_of request
        ∷ failure_of available
        ∷ failure_of system_taken
        ∷ [] in
      if wait schedule calls
      then none
      else some (
          all_clusters (or_else [] nodes) (or_else [] pods) (or_else [] total) (or_else [] usage)
            (or_else [] request) (or_else [] available) (or_else [] system_taken))
