-- ===== src/Analyzer/ResourceCost/Merging.antt =====
-- What the map of the costs of resources holds for each time.
pub mod Costs
mod Hours
use kubefin.Base.{
  ℕ, String, Bool, true, false, ◌||◌, ◌==◌, string_key, nat_key, Option, none, some, [], ◌∷◌, ◌≡◌,
  ◌⊎◌, refl, Dict, get, or_else, is_some, IsMap, if◌then◌else◌, arith, subst, Option-cases, inl,
  inr,
}
use kubefin.Base.Int.{ℤ}
use text.Mathlib.TextEquality.{eq_iff}
use kubefin.External.Float64.{Float64, nought}
use kubefin.Analyzer.Details.{write_details}
use kubefin.Analyzer.Details.Lookup.{
  cell, AreMaps, written, made, get-write_details, get-make_details,
}
use kubefin.Analyzer.WorkloadCost.Pods.{Rows}
use kubefin.Analyzer.NamespaceCost.{times_hour}
use kubefin.Analyzer.ResourceCost.{
  ClusterResourceCost, new_cost, parse_resource_total_cost, set_billing_mode,
  parse_resource_billing_mode_cost, write_resource, parse_node_resource_total_cost,
  parse_resource_cpu_total_hour, parse_resource_ram_total_hour, parse_resource_cpu_usage_hour,
  parse_resource_ram_usage_hour, cluster_resource_cost,
}
use kubefin.Analyzer.ResourceCost.Merging.Costs.{is_billed, unbilled, get-costs}
use kubefin.Analyzer.ResourceCost.Merging.Hours.{scaled_or, written_hours, is_priced-unpriced}

module _ {F : Type 0} ⦃float : Float64 F⦄ where
  -- The cost of one time, from what the seven maps hold for it: none if none holds a value. A billing mode
  -- that is not supported makes a cost, and leaves its fields.
  abbrev pub resource_cost :
      ℤ
      → ℕ
      → Option F
      → Rows F
      → Rows F
      → Option F
      → Option F
      → Option F
      → Option F
      → Option (ClusterResourceCost F)
  resource_cost step t total billing resources cpu_total cpu_usage ram_total ram_usage =
      let cpu_cost = cell "cpu" t resources in
      let ram_cost = cell "memory" t resources in
      if (is_some total || is_billed t billing || is_some cpu_cost || is_some ram_cost)
        || is_some cpu_total
        || is_some ram_total
        || is_some cpu_usage
        || is_some ram_usage
      then some (record {
        timestamp = t;
        total_cost = or_else nought total;
        cost_on_demand_billing_mode = or_else nought (cell "ondemand" t billing);
        cost_spot_billing_mode = or_else nought (cell "spot" t billing);
        cost_period_billing_mode = nought;
        cost_fallback_billing_mode = or_else nought (cell "fallback" t billing);
        cpu_core_count = scaled_or nought (times_hour step) cpu_total;
        cpu_core_usage = scaled_or nought (times_hour step) cpu_usage;
        cpu_cost = or_else nought cpu_cost;
        ram_gib_count = scaled_or nought (times_hour step) ram_total;
        ram_gib_usage = scaled_or nought (times_hour step) ram_usage;
        ram_cost = or_else nought ram_cost;
      })
      else none

  -- Where no map has a key twice, the map has one cost for each time that one of the seven maps has a
  -- value for: the costs as they are, the hours from the length of a step, zero for what has no value.
  pub get-cluster_resource_cost :
      (t : ℕ) (step : ℤ) (total : Dict ℕ F) (billing resources : Rows F)
      (cpu_total cpu_usage ram_total ram_usage : Dict ℕ F)
      → IsMap total
      → AreMaps billing
      → AreMaps resources
      → IsMap cpu_total × IsMap cpu_usage
      → IsMap ram_total × IsMap ram_usage
      → get t (
          cluster_resource_cost total billing resources cpu_total cpu_usage ram_total ram_usage
            step)
        ≡ resource_cost step t
            (get t total)
            billing
            resources
            (get t cpu_total)
            (get t cpu_usage)
            (get t ram_total)
            (get t ram_usage)
  unfolding cluster_resource_cost parse_resource_cpu_total_hour parse_resource_ram_total_hour
      parse_resource_cpu_usage_hour parse_resource_ram_usage_hour
  get-cluster_resource_cost t step total billing resources cpu_total cpu_usage ram_total ram_usage
        ht hb hs hc hr =
      rw
        (
          get-write_details _ _ t ram_usage _ hr.1,
          get-write_details _ _ t cpu_usage _ hc.1,
          get-write_details _ _ t ram_total _ hr.0,
          get-write_details _ _ t cpu_total _ hc.0,
          get-costs t total billing resources ht hb hs,
        )
        (written_hours step t _ _ (get t cpu_total) (get t cpu_usage) (get t ram_total)
          (get t ram_usage)
          (is_priced-unpriced t (get t total) (is_billed t billing) _ _ _ _ _ (λ h. (
            unbilled "ondemand" t billing h,
            unbilled "spot" t billing h,
            unbilled "fallback" t billing h,
          ))))
