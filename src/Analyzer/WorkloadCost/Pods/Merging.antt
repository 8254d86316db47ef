-- ===== src/Analyzer/WorkloadCost/Pods/Merging.antt =====
-- What the map of the costs of pods holds for each pod and time, and its lists.
use kubefin.Base.{
  ℕ, String, ◌||◌, Option, none, some, List, [], ◌≡◌, refl, or_else, is_some, if◌then◌else◌, arith,
  done, Outcome-cases, inl, inr,
}
use kubefin.Base.Int.{ℤ}
use kubefin.External.Float64.{Float64, nought}
use kubefin.Analyzer.Query.{Backend, SampleStream}
use kubefin.Analyzer.Series.{by_key, by_resource}
use kubefin.Analyzer.Series.Lookup.{AreMaps-by_key, AreMaps-by_resource}
use kubefin.Analyzer.Details.Lookup.{cell, AreMaps, cell-write_all, cell-make_all}
use kubefin.Analyzer.Details.Times.{AreKeyed, write_all-AreKeyed, make_all-AreKeyed}
use kubefin.Analyzer.WorkloadCost.Keys.{generate_pod_namespace_name_key}
use kubefin.Analyzer.WorkloadCost.Lists.{
  ClusterWorkloadCostDetail, ClusterWorkloadCost, convert_cluster_workload_cost_to_list,
}
use kubefin.Analyzer.WorkloadCost.Lists.Ascending.{AreAscending, convert-AreAscending}
use kubefin.Analyzer.WorkloadCost.Pods.{
  Rows, hourly, new_pod_detail, parse_pod_total_cost, parse_pod_resource_request,
  parse_pod_resource_usage, pod_workload_cost, query_pod_total_costs_with_time_range,
  query_pod_resource_request, query_pod_resource_usage, query_pod_costs_with_time_range,
}

module _ {F : Type 0} ⦃float : Float64 F⦄ where
  -- An amount per hour, zero without a value.
  abbrev pub amount : ℤ → Option F → F
  amount step_seconds none = nought
  amount step_seconds (some v) = hourly step_seconds v

  -- The detail of one pod and time, from what the five maps hold for them: none if none holds a value.
  abbrev pub pod_detail :
      ℤ
      → ℕ
      → Option F
      → Option F
      → Option F
      → Option F
      → Option F
      → Option (ClusterWorkloadCostDetail F)
  pod_detail step_seconds t total cpu_request ram_request cpu_usage ram_usage =
      if is_some total
        || is_some cpu_request
        || is_some ram_request
        || is_some cpu_usage
        || is_some ram_usage
      then some (record {
        timestamp = t;
        pod_count = float.of_ℕ 1;
        cpu_core_request = amount step_seconds cpu_request;
        cpu_core_usage = amount step_seconds cpu_usage;
        ram_gib_request = amount step_seconds ram_request;
        ram_gib_usage = amount step_seconds ram_usage;
        total_cost = or_else nought total;
      })
      else none

  cell-pod_workload_cost_of :
      (k : String) (t : ℕ) (step_seconds : ℤ) (total : Rows F) (request usage : Rows F × Rows F)
      → AreMaps total
      → AreMaps request.0 × AreMaps request.1
      → AreMaps usage.0 × AreMaps usage.1
      → cell k t (pod_workload_cost total request usage step_seconds)
        ≡ pod_detail step_seconds t
            (cell k t total)
            (cell k t request.0)
            (cell k t request.1)
            (cell k t usage.0)
            (cell k t usage.1)
  unfolding pod_workload_cost parse_pod_total_cost parse_pod_resource_request
      parse_pod_resource_usage
  cell-pod_workload_cost_of k t step_seconds total request usage ht hr hu =
      rw
        (
          cell-write_all _ _ k t usage.1 _ hu.1,
          cell-write_all _ _ k t usage.0 _ hu.0,
          cell-write_all _ _ k t request.1 _ hr.1,
          cell-write_all _ _ k t request.0 _ hr.0,
          cell-make_all _ k t total ht,
        )
        (ground arith)

  -- For each pod and time the map has one detail, if one of the five series has a value there: the total
  -- cost as it is, requests and usages per hour, zero for what has no value, and a pod count of one.
  pub cell-pod_workload_cost :
      (k : String) (t : ℕ) (step_seconds : ℤ) (total request usage : List (SampleStream F))
      → let total_costs = by_key generate_pod_namespace_name_key total [] in
        let requests = by_resource generate_pod_namespace_name_key request ([], []) in
        let usages = by_resource generate_pod_namespace_name_key usage ([], []) in
        cell k t (pod_workload_cost total_costs requests usages step_seconds)
        ≡ pod_detail step_seconds t
            (cell k t total_costs)
            (cell k t requests.0)
            (cell k t requests.1)
            (cell k t usages.0)
            (cell k t usages.1)
  cell-pod_workload_cost k t step_seconds total request usage =
      let key = generate_pod_namespace_name_key in
      cell-pod_workload_cost_of k t step_seconds _ _ _ (AreMaps-by_key key total [] tt)
        (AreMaps-by_resource key request ([], []) (tt, tt))
        (AreMaps-by_resource key usage ([], []) (tt, tt))

  AreKeyed-pod_workload_cost :
      (step_seconds : ℤ) (total : Rows F) (request usage : Rows F × Rows F)
      → AreKeyed ClusterWorkloadCostDetail.timestamp
          (pod_workload_cost total request usage step_seconds)
  unfolding pod_workload_cost parse_pod_total_cost parse_pod_resource_request
      parse_pod_resource_usage
  AreKeyed-pod_workload_cost step_seconds total request usage =
      let keep = write_all-AreKeyed ClusterWorkloadCostDetail.timestamp new_pod_detail in
      keep _ (λ t. refl) (λ t v d. refl) usage.1 _
        (keep _ (λ t. refl) (λ t v d. refl) usage.0 _
          (keep _ (λ t. refl) (λ t v d. refl) request.1 _
            (keep _ (λ t. refl) (λ t v d. refl) request.0 _
              (make_all-AreKeyed ClusterWorkloadCostDetail.timestamp _ (λ t v. refl) total [] tt))))

  -- Whatever the backend replies and however the goroutines are scheduled, the times in each list of a
  -- result rise strictly.
  pub query_pod_costs_with_time_range-AreAscending :
      (itoa : ℤ → String) (backend : Backend F) (cluster_id : String) (start end step_seconds : ℤ)
      (schedule : List ℕ) (list : List (ClusterWorkloadCost F))
      → query_pod_costs_with_time_range itoa backend cluster_id start end step_seconds schedule
        ≡ done (some list)
      → AreAscending list
  unfolding query_pod_costs_with_time_range
  query_pod_costs_with_time_range-AreAscending itoa backend cluster_id start end step_seconds
        schedule list ran =
      let total =
        or_else []
          (query_pod_total_costs_with_time_range itoa backend cluster_id start end step_seconds) in
      let request =
        or_else ([], [])
          (query_pod_resource_request itoa backend cluster_id start end step_seconds) in
      let usage =
        or_else ([], [])
          (query_pod_resource_usage itoa backend cluster_id start end step_seconds) in
      let cost = pod_workload_cost total request usage step_seconds in
      elim (Outcome-cases (convert_cluster_workload_cost_to_list cost)) [
        | inl bad ↦ absurd (ground arith)
        | inr (ret, converted) ↦
            convert-AreAscending cost list
              (AreKeyed-pod_workload_cost step_seconds total request usage) (ground arith)
      ]
