-- ===== src/Agent/UsageCache/Tests.antt =====
-- The theorems about the usage cache at a cache of two pods.
use kubefin.Base.{ℕ, String, [], ◌∷◌, ◌≡◌, refl}
use kubefin.Base.Int.{ℤ, pos_part}
use kubefin.External.Quantity.{Readings, units}
use kubefin.External.Float64.{whole}
use kubefin.External.Objects.{Phase, Pod}
use kubefin.Agent.UsageCache.{PodUsageMetric, UsageCache, query_workloads_usage_by_pods}
use kubefin.Agent.UsageCache.Lookup.{usages_of, query_workloads_usage_by_pods-usages_of}
use mathlib.Core.List.{flat_map}

instance abbrev whole_readings : Readings ℤ ℕ
whole_readings = record { approximate = pos_part; milli_value = pos_part; value = pos_part }

abbrev pod_named : String → Pod ℤ
pod_named name = record {
  namespace = "default";
  name = name;
  labels = [];
  node_name = "one";
  phase = Phase.running;
  containers = [];
}

abbrev usage_named : String → PodUsageMetric ℕ
usage_named name = record { name = name; namespace = "default"; containers_usage = [] }

abbrev two_pods : UsageCache ℕ
two_pods = record { pods_usage = usage_named "a" ∷ usage_named "b" ∷ []; nodes_usage = [] }

query_workloads_usage_by_pods-usages_of_example :
    query_workloads_usage_by_pods (pod_named "b" ∷ pod_named "c" ∷ pod_named "a" ∷ []) two_pods
    ≡ usage_named "b" ∷ usage_named "a" ∷ []
unfolding usages_of flat_map
query_workloads_usage_by_pods-usages_of_example =
    query_workloads_usage_by_pods-usages_of (pod_named "b" ∷ pod_named "c" ∷ pod_named "a" ∷ [])
      two_pods ((refl, tt), (tt, tt))
