-- ===== src/Analyzer/NamespaceCost.antt =====
-- The costs of the namespaces of a cluster (pkg/analyzer/server/implementation/namespace_cost.go,
-- pkg/analyzer/types/types.go).
pub mod Panics
pub mod Merging
use kubefin.Base.{
  ℕ, String, nat_key, string_key, Option, none, some, List, [], ◌∷◌, Dict, get, put, or_else,
  if◌then◌else◌, Outcome, done, panic, ◌>>=◌,
}
use kubefin.Base.Int.{ℤ}
use kubefin.External.Float64.{Float64, of_ℤ, nought, hour_in_seconds}
use kubefin.External.Prometheus.{Labels}
use kubefin.Agent.Values
use kubefin.Analyzer.Goroutines.{wait, failure_of}
use kubefin.Analyzer.Query.{Backend}
use kubefin.Analyzer.Query.Promql
use kubefin.Analyzer.Series.{label, by_key, by_resource}
use kubefin.Analyzer.Details.{write_details, make_all, sort_by_time, details_list}
use kubefin.Analyzer.WorkloadCost.Pods.{Rows}
use kubefin.Analyzer.WorkloadCost.HighLevel.{per_period}

pub record ClusterNamespaceCostDetail (F : Type 0) : Type 0 where
  pub timestamp : ℕ
  pub pod_count : F
  pub cpu_core_request : F
  pub cpu_core_usage : F
  pub ram_gib_request : F
  pub ram_gib_usage : F
  pub total_cost : F

pub record ClusterNamespaceCost (F : Type 0) : Type 0 where
  pub namespace : String
  pub cost_list : List (ClusterNamespaceCostDetail F)

pub record ClusterNamespaceCostList (F : Type 0) : Type 0 where
  pub cluster_id : String
  pub items : List (ClusterNamespaceCost F)

-- `ns.Metric[model.LabelName(values.NamespaceLabelKey)]`
abbrev pub namespace_of : Labels → String
namespace_of = label Values.namespace_label_key

-- The loop over `details` with `item := nsCost[ns]` as it was read: the nil map of a namespace that was
-- missing can be read, and a write to it panics.
module _ {F D : Type 0} (fresh : ℕ → D) (set : ℕ → F → D → D) where
  unfoldable pub write_item : Dict ℕ F → Option (Dict ℕ D) → Outcome (Dict ℕ D)
  write_item details (some item) = done (write_details fresh set details item)
  write_item [] none = done []
  write_item ((t, v) ∷ details) none = panic

  unfoldable pub write_held :
      Dict String (Dict ℕ F) → Dict String (Dict ℕ D) → Outcome (Dict String (Dict ℕ D))
  write_held [] cost = done cost
  write_held ((ns, details) ∷ rest) cost = do
    item ← write_item details (get ns cost)
    write_held rest (put ns item cost)

module _ {F : Type 0} ⦃float : Float64 F⦄ where
  open float use {mul, div, of_ℕ}

  -- `&types.ClusterNamespaceCostDetail{Timestamp: timeStamp}`
  abbrev pub new_detail : ℕ → ClusterNamespaceCostDetail F
  new_detail t = record {
    timestamp = t;
    pod_count = nought;
    cpu_core_request = nought;
    cpu_core_usage = nought;
    ram_gib_request = nought;
    ram_gib_usage = nought;
    total_cost = nought;
  }

  -- `v / float64(stepSeconds) * values.HourInSeconds`
  abbrev pub times_hour : ℤ → F → F
  times_hour step_seconds v = mul (div v (of_ℤ step_seconds)) hour_in_seconds

  unfoldable pub parse_namespace_total_costs :
      Rows F → Rows (ClusterNamespaceCostDetail F) → Rows (ClusterNamespaceCostDetail F)
  parse_namespace_total_costs = make_all (λ t v. record (new_detail t) { total_cost = v })

  unfoldable pub parse_namespace_pod_count :
      Rows F
      → ℤ
      → Rows (ClusterNamespaceCostDetail F)
      → Outcome (Rows (ClusterNamespaceCostDetail F))
  parse_namespace_pod_count pod_count step_seconds =
      write_held new_detail (λ t v d. record d { pod_count = per_period step_seconds v }) pod_count

  unfoldable pub parse_namespace_resource_request :
      Rows F × Rows F
      → ℤ
      → Rows (ClusterNamespaceCostDetail F)
      → Outcome (Rows (ClusterNamespaceCostDetail F))
  parse_namespace_resource_request (cpu_request, ram_request) step_seconds ns_cost = do
    cost ←
        write_held new_detail (λ t v d. record d { cpu_core_request = times_hour step_seconds v })
          cpu_request ns_cost
    write_held new_detail (λ t v d. record d { ram_gib_request = times_hour step_seconds v })
        ram_request cost

  -- The memory is taken as it is.
  unfoldable pub parse_namespace_resource_usage :
      Rows F × Rows F
      → ℤ
      → Rows (ClusterNamespaceCostDetail F)
      → Outcome (Rows (ClusterNamespaceCostDetail F))
  parse_namespace_resource_usage (cpu_usage, ram_usage) step_seconds ns_cost = do
    cost ←
        write_held new_detail (λ t v d. record d { cpu_core_usage = times_hour step_seconds v })
          cpu_usage ns_cost
    write_held new_detail (λ t v d. record d { ram_gib_usage = v }) ram_usage cost

  -- The map that `QueryNamespaceCostsWithTimeRange` fills after the wait.
  unfoldable pub namespace_cost :
      Rows F
      → Rows F
      → Rows F × Rows F
      → Rows F × Rows F
      → ℤ
      → Outcome (Rows (ClusterNamespaceCostDetail F))
  namespace_cost total_costs pod_count request usage step_seconds = do
    counted ←
        parse_namespace_pod_count pod_count step_seconds
          (parse_namespace_total_costs total_costs [])
    requested ← parse_namespace_resource_request request step_seconds counted
    parse_namespace_resource_usage usage step_seconds requested

  unfoldable pub convert_cluster_ns_cost_to_list :
      Rows (ClusterNamespaceCostDetail F) → List (ClusterNamespaceCost F)
  convert_cluster_ns_cost_to_list [] = []
  convert_cluster_ns_cost_to_list ((ns_key, details) ∷ ns_cost) =
      record {
        namespace = ns_key;
        cost_list = sort_by_time ClusterNamespaceCostDetail.timestamp (details_list details);
      }
      ∷ convert_cluster_ns_cost_to_list ns_cost

  module _ (itoa : ℤ → String) (backend : Backend F) (cluster_id : String)
      (start end step_seconds : ℤ) where
    open backend use {query_range_with_step}

    unfoldable pub query_namespace_total_cost : Option (Rows F)
    query_namespace_total_cost =
        let promql =
          Promql.ql_ns_total_cost_from_cluster_with_time_range itoa cluster_id step_seconds in
        elim (query_range_with_step promql start end step_seconds) [
          | none ↦ none
          | some ret ↦ some (by_key namespace_of ret [])
        ]

    unfoldable pub query_namespace_pod_count : Option (Rows F)
    query_namespace_pod_count =
        let promql = Promql.ql_ns_pod_from_cluster_with_time_range itoa cluster_id step_seconds in
        elim (query_range_with_step promql start end step_seconds) [
          | none ↦ none
          | some ret ↦ some (by_key namespace_of ret [])
        ]

    unfoldable pub query_namespace_resource_request : Option (Rows F × Rows F)
    query_namespace_resource_request =
        let promql =
          Promql.ql_ns_resource_request_from_cluster_with_time_range itoa cluster_id step_seconds in
        elim (query_range_with_step promql start end step_seconds) [
          | none ↦ none
          | some ret ↦ some (by_resource namespace_of ret ([], []))
        ]

    unfoldable pub query_namespace_resource_usage : Option (Rows F × Rows F)
    query_namespace_resource_usage =
        let promql =
          Promql.ql_ns_resource_usage_from_cluster_with_time_range itoa cluster_id step_seconds in
        elim (query_range_with_step promql start end step_seconds) [
          | none ↦ none
          | some ret ↦ some (by_resource namespace_of ret ([], []))
        ]

  unfoldable pub query_namespace_costs_with_time_range :
      (ℤ → String)
      → Backend F
      → String
      → ℤ
      → ℤ
      → ℤ
      → List ℕ
      → Outcome (Option (ClusterNamespaceCostList F))
  query_namespace_costs_with_time_range itoa backend cluster_id start end step_seconds schedule =
      let total_costs = query_namespace_total_cost itoa backend cluster_id start end step_seconds in
      let pod_count = query_namespace_pod_count itoa backend cluster_id start end step_seconds in
      let request =
        query_namespace_resource_request itoa backend cluster_id start end step_seconds in
      let usage = query_namespace_resource_usage itoa backend cluster_id start end step_seconds in
      let calls =
        failure_of total_costs
        ∷ failure_of pod_count
        ∷ failure_of request
        ∷ failure_of usage
        ∷ [] in
      if wait schedule calls then done none else (do
        ns_cost ←
            namespace_cost (or_else [] total_costs) (or_else [] pod_count)
              (or_else ([], []) request) (or_else ([], []) usage) step_seconds
        done (
            some (record {
              cluster_id = cluster_id;
              items = convert_cluster_ns_cost_to_list ns_cost;
            })))
