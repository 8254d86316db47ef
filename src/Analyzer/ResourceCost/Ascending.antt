-- ===== src/Analyzer/ResourceCost/Ascending.antt =====
-- The list of the costs of resources rises in time.
use kubefin.Base.{
  ℕ, String, ◌==◌, string_key, List, [], ◌∷◌, ◌≡◌, refl, Dict, if◌then◌else◌, arith, some, none,
  either, or_else, subst, Bool, true, false,
}
use kubefin.Base.Int.{ℤ}
use kubefin.External.Float64.{Float64}
use kubefin.Analyzer.Query.{Backend}
use kubefin.Analyzer.Details.{write_details}
use kubefin.Analyzer.Details.Times.{
  IsKeyed, IsAscending, sort_by_time-IsAscending, write_details-IsKeyed, make_details-IsKeyed,
}
use kubefin.Analyzer.WorkloadCost.Pods.{Rows}
use kubefin.Analyzer.ResourceCost.{
  ClusterResourceCost, ClusterResourceCostList, new_cost, parse_resource_total_cost,
  set_billing_mode, parse_resource_billing_mode_cost, write_resource,
  parse_node_resource_total_cost, parse_resource_cpu_total_hour, parse_resource_ram_total_hour,
  parse_resource_cpu_usage_hour, parse_resource_ram_usage_hour, cluster_resource_cost,
  convert_cluster_resource_cost_to_list,
}
use kubefin.Analyzer.ResourceCost.Queries.{
  query_cluster_resource_cost, query_node_total_cost, query_node_billing_mode_cost,
  query_node_resource_total_cost, query_node_cpu_total_hour, query_node_cpu_usage_hour,
  query_node_ram_total_hour, query_node_ram_usage_hour,
}

value_of_test :
    {A : Type 0} {a b : A} (test : Bool) → (if test then none else some a) ≡ some b → a ≡ b
value_of_test true ran = absurd (ground arith)
value_of_test false ran = ground arith

module _ {F : Type 0} ⦃float : Float64 F⦄ where
  abbrev IsTimed : Dict ℕ (ClusterResourceCost F) → Type 0
  IsTimed = IsKeyed ClusterResourceCost.timestamp

  written-IsTimed :
      (set : ℕ → F → ClusterResourceCost F → ClusterResourceCost F) (details : Dict ℕ F)
      (cost : Dict ℕ (ClusterResourceCost F))
      → ((t : ℕ) (v : F) (d : ClusterResourceCost F) → (set t v d).timestamp ≡ d.timestamp)
      → IsTimed cost
      → IsTimed (write_details new_cost set details cost)
  written-IsTimed set details cost keeps h =
      write_details-IsKeyed ClusterResourceCost.timestamp new_cost set (λ t. refl) keeps details
        cost h

  set_billing_mode-timestamp :
      (mode : String) (t : ℕ) (v : F) (d : ClusterResourceCost F)
      → (set_billing_mode mode t v d).timestamp ≡ d.timestamp
  unfolding set_billing_mode
  set_billing_mode-timestamp mode t v d = ground arith

  billing-IsTimed :
      (rows : Rows F) (cost : Dict ℕ (ClusterResourceCost F))
      → IsTimed cost
      → IsTimed (parse_resource_billing_mode_cost rows cost)
  unfolding parse_resource_billing_mode_cost
  billing-IsTimed [] cost h = h
  billing-IsTimed ((mode, details) ∷ rows) cost h =
      billing-IsTimed rows _
        (written-IsTimed (set_billing_mode mode) details cost (set_billing_mode-timestamp mode) h)

  resources-IsTimed :
      (rows : Rows F) (cost : Dict ℕ (ClusterResourceCost F))
      → IsTimed cost
      → IsTimed (parse_node_resource_total_cost rows cost)
  unfolding parse_node_resource_total_cost write_resource
  resources-IsTimed [] cost h = h
  resources-IsTimed ((kind, v) ∷ rows) cost h = resources-IsTimed rows _ (
      either IsTimed (kind == "cpu") (written-IsTimed _ v cost (λ t w d. refl) h)
        (either IsTimed (kind == "memory") (written-IsTimed _ v cost (λ t w d. refl) h) h))

  pub cluster_resource_cost-IsTimed :
      (total : Dict ℕ F) (billing resources : Rows F)
      (cpu_total cpu_usage ram_total ram_usage : Dict ℕ F) (step : ℤ)
      → IsTimed (
          cluster_resource_cost total billing resources cpu_total cpu_usage ram_total ram_usage
            step)
  unfolding cluster_resource_cost parse_resource_total_cost parse_resource_cpu_total_hour
      parse_resource_ram_total_hour parse_resource_cpu_usage_hour parse_resource_ram_usage_hour
  cluster_resource_cost-IsTimed total billing resources cpu_total cpu_usage ram_total ram_usage
        step =
      let made_costs =
        make_details-IsKeyed ClusterResourceCost.timestamp _ (λ t v. refl) total [] tt in
      let priced_costs = resources-IsTimed resources _ (billing-IsTimed billing _ made_costs) in
      written-IsTimed _ ram_usage _ (λ t v d. refl)
        (written-IsTimed _ cpu_usage _ (λ t v d. refl)
          (written-IsTimed _ ram_total _ (λ t v d. refl)
            (written-IsTimed _ cpu_total _ (λ t v d. refl) priced_costs)))

  -- Whatever the replies and the order of the calls are, the times in the list of costs rise strictly.
  pub query_cluster_resource_cost-IsAscending :
      (itoa : ℤ → String) (backend : Backend F) (cluster_id : String) (start end step : ℤ)
      (schedule : List ℕ) (list : ClusterResourceCostList F)
      → query_cluster_resource_cost itoa backend cluster_id start end step schedule ≡ some list
      → IsAscending ClusterResourceCost.timestamp list.items
  unfolding query_cluster_resource_cost convert_cluster_resource_cost_to_list
  query_cluster_resource_cost-IsAscending itoa backend cluster_id start end step schedule list ran =
      let cost =
        cluster_resource_cost
          (or_else [] (query_node_total_cost itoa backend cluster_id start end step))
          (or_else [] (query_node_billing_mode_cost itoa backend cluster_id start end step))
          (or_else [] (query_node_resource_total_cost itoa backend cluster_id start end step))
          (or_else [] (query_node_cpu_total_hour itoa backend cluster_id start end step))
          (or_else [] (query_node_cpu_usage_hour itoa backend cluster_id start end step))
          (or_else [] (query_node_ram_total_hour itoa backend cluster_id start end step))
          (or_else [] (query_node_ram_usage_hour itoa backend cluster_id start end step)) step in
      subst (λ (l : ClusterResourceCostList F). IsAscending ClusterResourceCost.timestamp l.items)
        (value_of_test _ ran)
        (sort_by_time-IsAscending ClusterResourceCost.timestamp cost
          (cluster_resource_cost-IsTimed _ _ _ _ _ _ _ step))
