-- ===== src/Analyzer/ResourceCost.antt =====
-- The costs of the resources of a cluster (pkg/analyzer/server/implementation/resource_cost.go,
-- pkg/analyzer/types/types.go).
pub mod Merging
pub mod Ascending
pub mod Order
pub mod Queries
use kubefin.Base.{
  ℕ, String, Bool, ◌==◌, nat_key, string_key, Option, none, some, List, [], ◌∷◌, Dict, get, put,
  or_else, if◌then◌else◌,
}
use kubefin.Base.Int.{ℤ}
use kubefin.External.Float64.{Float64, nought}
use kubefin.Agent.Values
use kubefin.Analyzer.Goroutines.{wait, failure_of}
use kubefin.Analyzer.Query.{SampleStream, Backend}
use kubefin.Analyzer.Query.Promql
use kubefin.Analyzer.Series.{label, by_time, by_key, first_by_time}
use kubefin.Analyzer.Details.{write_details, make_details, sort_by_time, details_list}
use kubefin.Analyzer.WorkloadCost.Pods.{Rows}
use kubefin.Analyzer.NamespaceCost.{times_hour}

pub record ClusterResourceCost (F : Type 0) : Type 0 where
  pub timestamp : ℕ
  pub total_cost : F
  pub cost_on_demand_billing_mode : F
  pub cost_spot_billing_mode : F
  pub cost_period_billing_mode : F
  pub cost_fallback_billing_mode : F
  pub cpu_core_count : F
  pub cpu_core_usage : F
  pub cpu_cost : F
  pub ram_gib_count : F
  pub ram_gib_usage : F
  pub ram_cost : F

pub record ClusterResourceCostList (F : Type 0) : Type 0 where
  pub cluster_id : String
  pub items : List (ClusterResourceCost F)

module _ {F : Type 0} ⦃float : Float64 F⦄ where
  -- `&types.ClusterResourceCost{Timestamp: timeStamp}`
  abbrev pub new_cost : ℕ → ClusterResourceCost F
  new_cost t = record {
    timestamp = t;
    total_cost = nought;
    cost_on_demand_billing_mode = nought;
    cost_spot_billing_mode = nought;
    cost_period_billing_mode = nought;
    cost_fallback_billing_mode = nought;
    cpu_core_count = nought;
    cpu_core_usage = nought;
    cpu_cost = nought;
    ram_gib_count = nought;
    ram_gib_usage = nought;
    ram_cost = nought;
  }

  unfoldable pub parse_resource_total_cost :
      Dict ℕ F → Dict ℕ (ClusterResourceCost F) → Dict ℕ (ClusterResourceCost F)
  parse_resource_total_cost = make_details (λ t v. record (new_cost t) { total_cost = v })

  -- The `switch billingMode`; a mode that is not supported leaves the cost as it is.
  unfoldable pub set_billing_mode : String → ℕ → F → ClusterResourceCost F → ClusterResourceCost F
  set_billing_mode billing_mode t v cost =
      if billing_mode == Values.billing_mode_on_demand
      then record cost { cost_on_demand_billing_mode = v }
      else if billing_mode == Values.billing_mode_spot
      then record cost { cost_spot_billing_mode = v }
      else if billing_mode == Values.billing_mode_fallback
      then record cost { cost_fallback_billing_mode = v }
      else cost

  unfoldable pub parse_resource_billing_mode_cost :
      Rows F → Dict ℕ (ClusterResourceCost F) → Dict ℕ (ClusterResourceCost F)
  parse_resource_billing_mode_cost [] cost = cost
  parse_resource_billing_mode_cost ((billing_mode, details) ∷ rest) cost =
      parse_resource_billing_mode_cost rest
        (write_details new_cost (set_billing_mode billing_mode) details cost)

  -- The body of the loop over the kinds of resources.
  unfoldable pub write_resource :
      String → Dict ℕ F → Dict ℕ (ClusterResourceCost F) → Dict ℕ (ClusterResourceCost F)
  write_resource resource_type v cost =
      if resource_type == "cpu"
      then write_details new_cost (λ t cost_value d. record d { cpu_cost = cost_value }) v cost
      else if resource_type == "memory"
      then write_details new_cost (λ t cost_value d. record d { ram_cost = cost_value }) v cost
      else cost

  unfoldable pub parse_node_resource_total_cost :
      Rows F → Dict ℕ (ClusterResourceCost F) → Dict ℕ (ClusterResourceCost F)
  parse_node_resource_total_cost [] cost = cost
  parse_node_resource_total_cost ((resource_type, v) ∷ rest) cost =
      parse_node_resource_total_cost rest (write_resource resource_type v cost)

  unfoldable pub parse_resource_cpu_total_hour :
      Dict ℕ F → ℤ → Dict ℕ (ClusterResourceCost F) → Dict ℕ (ClusterResourceCost F)
  parse_resource_cpu_total_hour cpu_total_hour_count step_seconds =
      write_details new_cost (λ t v d. record d { cpu_core_count = times_hour step_seconds v })
        cpu_total_hour_count

  unfoldable pub parse_resource_ram_total_hour :
      Dict ℕ F → ℤ → Dict ℕ (ClusterResourceCost F) → Dict ℕ (ClusterResourceCost F)
  parse_resource_ram_total_hour ram_total_hour_count step_seconds =
      write_details new_cost (λ t v d. record d { ram_gib_count = times_hour step_seconds v })
        ram_total_hour_count

  unfoldable pub parse_resource_cpu_usage_hour :
      Dict ℕ F → ℤ → Dict ℕ (ClusterResourceCost F) → Dict ℕ (ClusterResourceCost F)
  parse_resource_cpu_usage_hour cpu_usage_hour_count step_seconds =
      write_details new_cost (λ t v d. record d { cpu_core_usage = times_hour step_seconds v })
        cpu_usage_hour_count

  unfoldable pub parse_resource_ram_usage_hour :
      Dict ℕ F → ℤ → Dict ℕ (ClusterResourceCost F) → Dict ℕ (ClusterResourceCost F)
  parse_resource_ram_usage_hour ram_usage_hour_count step_seconds =
      write_details new_cost (λ t v d. record d { ram_gib_usage = times_hour step_seconds v })
        ram_usage_hour_count

  -- The map that `QueryClusterResourceCost` fills after the wait.
  unfoldable pub cluster_resource_cost :
      Dict ℕ F
      → Rows F
      → Rows F
      → Dict ℕ F
      → Dict ℕ F
      → Dict ℕ F
      → Dict ℕ F
      → ℤ
      → Dict ℕ (ClusterResourceCost F)
  cluster_resource_cost total_costs billing_mode_costs resource_total_cost cpu_total cpu_usage
        ram_total ram_usage step_seconds =
      parse_resource_ram_usage_hour ram_usage step_seconds (
        parse_resource_cpu_usage_hour cpu_usage step_seconds (
          parse_resource_ram_total_hour ram_total step_seconds (
            parse_resource_cpu_total_hour cpu_total step_seconds (
              parse_node_resource_total_cost resource_total_cost (
                parse_resource_billing_mode_cost billing_mode_costs
                  (parse_resource_total_cost total_costs []))))))

  unfoldable pub convert_cluster_resource_cost_to_list :
      String → Dict ℕ (ClusterResourceCost F) → ClusterResourceCostList F
  convert_cluster_resource_cost_to_list cluster_id node_cost = record {
    cluster_id = cluster_id;
    items = sort_by_time ClusterResourceCost.timestamp (details_list node_cost);
  }
