-- ===== src/Analyzer/Tests/Resources.antt =====
-- The theorems about the costs of resources and namespaces at small replies.
use kubefin.Base.{
  ℕ, string_key, nat_key, put, none, some, [], ◌∷◌, ◌≡◌, refl, Dict, get, if◌then◌else◌, done,
  panic, arith,
}
use kubefin.Base.Int.{pos}
use kubefin.External.Float64.{whole}
use kubefin.Analyzer.Goroutines.{act, step, run, reports, wait}
use kubefin.Analyzer.Details.{
  write_details, make_details, make_all, insert_by_time, sort_by_time, details_list,
}
use kubefin.Analyzer.Series.{by_time, by_key, by_resource, first_by_time}
use kubefin.Analyzer.Details.Lookup.{cell}
use kubefin.Analyzer.Details.Times.{IsAscending}
use kubefin.Analyzer.WorkloadCost.Pods.{Rows}
use kubefin.Analyzer.NamespaceCost.{
  ClusterNamespaceCostDetail, namespace_of, namespace_cost, parse_namespace_total_costs,
  parse_namespace_pod_count, parse_namespace_resource_request, parse_namespace_resource_usage,
  write_held, write_item,
}
use kubefin.Analyzer.NamespaceCost.Panics.{merged, has_stray, namespace_cost-has_stray}
use kubefin.Analyzer.NamespaceCost.Merging.{namespace_detail, cell-namespace_cost}
use kubefin.Analyzer.ResourceCost.{
  ClusterResourceCost, ClusterResourceCostList, cluster_resource_cost, parse_resource_total_cost,
  parse_resource_billing_mode_cost, parse_node_resource_total_cost, write_resource,
  set_billing_mode, parse_resource_cpu_total_hour, parse_resource_ram_total_hour,
  parse_resource_cpu_usage_hour, parse_resource_ram_usage_hour,
  convert_cluster_resource_cost_to_list,
}
use kubefin.Analyzer.ResourceCost.Queries.{
  query_cluster_resource_cost, query_node_total_cost, query_node_billing_mode_cost,
  query_node_resource_total_cost, query_node_cpu_total_hour, query_node_cpu_usage_hour,
  query_node_ram_total_hour, query_node_ram_usage_hour, by_cpu_and_memory,
}
use kubefin.Analyzer.ResourceCost.Merging.{resource_cost, get-cluster_resource_cost}
use kubefin.Analyzer.ResourceCost.Ascending.{query_cluster_resource_cost-IsAscending}
use kubefin.Analyzer.Tests.Costs.{series, none_at_all, backend, in_order}

abbrev resource_costs : ClusterResourceCostList ℕ
resource_costs = record {
  cluster_id = "c";
  items =
      record {
        timestamp = 3600;
        total_cost = 7200;
        cost_on_demand_billing_mode = 0;
        cost_spot_billing_mode = 0;
        cost_period_billing_mode = 0;
        cost_fallback_billing_mode = 0;
        cpu_core_count = 7200;
        cpu_core_usage = 7200;
        cpu_cost = 7200;
        ram_gib_count = 7200;
        ram_gib_usage = 7200;
        ram_cost = 0;
      }
      ∷ record {
        timestamp = 7200;
        total_cost = 10800;
        cost_on_demand_billing_mode = 0;
        cost_spot_billing_mode = 0;
        cost_period_billing_mode = 0;
        cost_fallback_billing_mode = 0;
        cpu_core_count = 10800;
        cpu_core_usage = 10800;
        cpu_cost = 10800;
        ram_gib_count = 10800;
        ram_gib_usage = 10800;
        ram_cost = 0;
      }
      ∷ [];
}

resource_costs_ran :
    query_cluster_resource_cost (λ n. "1") backend "c" (pos 0) (pos 7200) (pos 3600) in_order
    ≡ some resource_costs
unfolding query_cluster_resource_cost query_node_total_cost query_node_billing_mode_cost
    query_node_resource_total_cost query_node_cpu_total_hour query_node_cpu_usage_hour
    query_node_ram_total_hour query_node_ram_usage_hour wait run step act reports by_key by_time
    first_by_time by_cpu_and_memory cluster_resource_cost parse_resource_total_cost
    parse_resource_billing_mode_cost parse_node_resource_total_cost write_resource set_billing_mode
    parse_resource_cpu_total_hour parse_resource_ram_total_hour parse_resource_cpu_usage_hour
    parse_resource_ram_usage_hour write_details make_details get put
    convert_cluster_resource_cost_to_list sort_by_time insert_by_time details_list
resource_costs_ran = refl

query_cluster_resource_cost-IsAscending_example :
    IsAscending ClusterResourceCost.timestamp resource_costs.items
query_cluster_resource_cost-IsAscending_example =
    query_cluster_resource_cost-IsAscending (λ n. "1") backend "c" (pos 0) (pos 7200) (pos 3600)
      in_order resource_costs resource_costs_ran

abbrev totals : Dict ℕ ℕ
totals = (3600, 5) ∷ []

abbrev modes : Rows ℕ
modes = ("ondemand", (3600, 4) ∷ []) ∷ ("monthly", (7200, 1) ∷ []) ∷ []

get-cluster_resource_cost_example :
    get 7200 (cluster_resource_cost totals modes [] totals [] [] totals (pos 3600))
    ≡ resource_cost
        (pos 3600)
        7200
        (get 7200 totals)
        modes
        []
        (get 7200 totals)
        none
        none
        (get 7200 totals)
unfolding get
get-cluster_resource_cost_example =
    get-cluster_resource_cost 7200 (pos 3600) totals modes [] totals [] [] totals (refl, tt)
      (refl, (refl, tt), (refl, (refl, tt), tt)) tt ((refl, tt), tt) (tt, (refl, tt))

-- Pods of a namespace without a cost.
abbrev counts : Rows ℕ
counts = ("shop", (3600, 240) ∷ []) ∷ []

namespace_cost-has_stray_example : namespace_cost [] counts ([], []) ([], []) (pos 3600) ≡ (
    if has_stray {F = ℕ} [] counts ([], []) ([], [])
    then panic
    else done (merged [] counts ([], []) ([], []) (pos 3600)))
namespace_cost-has_stray_example =
    namespace_cost-has_stray [] counts ([], []) ([], []) (pos 3600) (λ h. ground arith, tt) (tt, tt)
      (tt, tt)

abbrev detail : ℕ → ℕ → ℕ → ClusterNamespaceCostDetail ℕ
detail t pods v = record {
  timestamp = t;
  pod_count = pods;
  cpu_core_request = v;
  cpu_core_usage = 0;
  ram_gib_request = 0;
  ram_gib_usage = 0;
  total_cost = v;
}

abbrev shop_costs : Rows (ClusterNamespaceCostDetail ℕ)
shop_costs = ("shop", (7200, detail 7200 45 10800) ∷ (3600, detail 3600 30 7200) ∷ []) ∷ []

shop_costs_ran :
    namespace_cost
      (by_key namespace_of series [])
      (by_key namespace_of series [])
      (by_resource namespace_of series ([], []))
      (by_resource namespace_of none_at_all ([], []))
      (pos 3600)
    ≡ done shop_costs
unfolding namespace_cost parse_namespace_total_costs parse_namespace_pod_count
    parse_namespace_resource_request parse_namespace_resource_usage write_held write_item
    write_details make_all make_details by_key by_resource by_time get put
shop_costs_ran = refl

cell-namespace_cost_example :
    cell "shop" 3600 shop_costs
    ≡ namespace_detail
        (pos 3600)
        3600
        (cell "shop" 3600 (by_key namespace_of series []))
        (cell "shop" 3600 (by_key namespace_of series []))
        (cell "shop" 3600 (by_resource namespace_of series ([], [])).0)
        (cell "shop" 3600 (by_resource namespace_of series ([], [])).1)
        (cell "shop" 3600 (by_resource namespace_of none_at_all ([], [])).0)
        (cell "shop" 3600 (by_resource namespace_of none_at_all ([], [])).1)
cell-namespace_cost_example =
    cell-namespace_cost "shop" 3600 (pos 3600) series series series none_at_all shop_costs
      (λ h. ground arith, tt) (λ h. ground arith, tt) tt shop_costs_ran
