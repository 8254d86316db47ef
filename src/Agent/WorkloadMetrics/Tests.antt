-- ===== src/Agent/WorkloadMetrics/Tests.antt =====
-- The theorems about the workload and pod collectors at two pods of the same containers.
use kubefin.Base.{
  ℕ, String, Option, none, some, List, [], ◌∷◌, ◌≡◌, get, string_key, nat_key, refl, ◌==◌,
  if◌then◌else◌,
}
use kubefin.Base.Int.{ℤ, pos, pos_part}
use kubefin.External.Quantity.{Readings, units}
use kubefin.External.Float64.{whole}
use kubefin.External.Objects.{Phase, Pod}
use kubefin.Agent.UsageCache.{UsageCache}
use kubefin.Agent.Utils.{ContainerRequests}
use mathlib.Core.List.{flat_map}
use kubefin.Agent.WorkloadMetrics.{
  custom_allocation, Workload, WorkloadAllocation, WorkloadMetricsCollector, sum_pod_requests,
  collect_custom_workload_metrics,
}
use kubefin.Agent.WorkloadMetrics.Mapper.{
  parse_custom_target_to_gvr, get_cluster_resource_mapper, refresh_resource_mapper,
}
use kubefin.Agent.WorkloadMetrics.Totals.{get-sum_pod_requests, plus_all, amounts}

instance abbrev whole_readings : Readings ℤ ℕ
whole_readings = record { approximate = pos_part; milli_value = pos_part; value = pos_part }

abbrev pod_on : String → Pod ℤ
pod_on node = record {
  namespace = "default";
  name = "web";
  labels = [];
  node_name = node;
  phase = Phase.running;
  containers = record { name = "app"; requests = ("cpu", pos 2000) ∷ [] } ∷ [];
}

abbrev nothing : ContainerRequests ℕ
nothing = record { cpu = []; ram = []; gpu = [] }

abbrev three_pods : List (Pod ℤ)
three_pods = pod_on "one" ∷ pod_on "" ∷ pod_on "two" ∷ []

get-sum_pod_requests_example :
    let sums = sum_pod_requests three_pods nothing in
    (get "app" sums.cpu ≡ plus_all none (amounts ContainerRequests.cpu "app" three_pods))
    × (get "app" sums.ram ≡ plus_all none (amounts ContainerRequests.ram "app" three_pods))
    × (get "app" sums.gpu ≡ plus_all none (amounts ContainerRequests.gpu "app" three_pods))
unfolding get
get-sum_pod_requests_example = get-sum_pod_requests three_pods nothing "app"

abbrev collector : WorkloadMetricsCollector
collector = record { cluster_name = "c"; cluster_id = "1" }

abbrev nothing_used : UsageCache ℕ
nothing_used = record { pods_usage = []; nodes_usage = [] }

abbrev cart : Workload String
cart = record { name = "cart"; namespace = "shop"; labels = []; selector = "" }

abbrev mapping : ℕ → String → String → String → Option String
mapping discovery group kind version = if discovery == 2 then some "carts" else none

abbrev carts : List (List WorkloadAllocation)
carts =
    (record { api_version = "shop/v1"; kind = "Cart"; workload_type_alias = "cart"; script = "" }
      ∷ [])
    ∷ []

-- A kind that is not known when the agent starts is not exported later.
late_kind :
    collect_custom_workload_metrics
      (λ node. none)
      (λ name. none)
      nothing_used
      collector
      (λ labels. some "{}")
      (λ api_version kind. elim (refresh_resource_mapper (λ n. n) (some 1)) [
        | none ↦ none
        | some mapper ↦
            parse_custom_target_to_gvr (λ v. some ("shop", v)) mapping mapper api_version kind
      ])
      (λ r. some (cart ∷ []))
      (λ w script. some script)
      (λ namespace selector. some (pod_on "n" ∷ []))
      (some carts)
    ≡ []
unfolding refresh_resource_mapper get_cluster_resource_mapper parse_custom_target_to_gvr
    collect_custom_workload_metrics flat_map custom_allocation
late_kind = refl
