-- ===== src/Agent/UsageCache.antt =====
-- pkg/agent/metrics/cache/usage_cache.go: the last usage that the metrics server reported. A reply
-- of the metrics server is `none` on an error. The mutexes make each operation one step.
pub mod Lookup
mod Tests
use kubefin.Base.{
  String, ◌==◌, string_key, ◌&&◌, Option, none, some, List, [], ◌∷◌, ◌++◌, map, if◌then◌else◌,
}
use kubefin.External.Quantity.{Readings, Quantity}
use kubefin.External.Float64.{Float64}
use kubefin.External.Objects.{Pod}
use kubefin.Agent.Utils.{convert_quality_to_core, convert_quality_to_gib}

pub record ResourceUsageMetric (F : Type 0) : Type 0 where
  pub resource_name : String
  pub cpu_usage : F
  pub memory_usage : F

pub record PodUsageMetric (F : Type 0) : Type 0 where
  pub name : String
  pub namespace : String
  pub containers_usage : List (ResourceUsageMetric F)

pub record UsageCache (F : Type 0) : Type 0 where
  pub pods_usage : List (PodUsageMetric F)
  pub nodes_usage : List (ResourceUsageMetric F)

-- Replies of the metrics server (k8s.io/metrics): usages of a container or a node, and of a pod.
pub record UsageItem (Q : Type 0) : Type 0 where
  pub name : String
  pub cpu : Q
  pub memory : Q

pub record PodMetrics (Q : Type 0) : Type 0 where
  pub name : String
  pub namespace : String
  pub containers : List (UsageItem Q)

module _ {F : Type 0} where
  unfoldable pub new_usage_cache : UsageCache F
  new_usage_cache = record { pods_usage = []; nodes_usage = [] }

  -- the inner loop of `QueryWorkloadsUsageByPods`, up to its `break`
  unfoldable pub find_usage :
      {Q : Type 0} → Pod Q → List (PodUsageMetric F) → List (PodUsageMetric F)
  find_usage pod [] = []
  find_usage pod (usage ∷ usages) =
      if pod.namespace == usage.namespace && pod.name == usage.name
      then usage ∷ []
      else find_usage pod usages

  unfoldable pub query_workloads_usage_by_pods :
      {Q : Type 0} → List (Pod Q) → UsageCache F → List (PodUsageMetric F)
  query_workloads_usage_by_pods [] c = []
  query_workloads_usage_by_pods (pod ∷ pods) c =
      find_usage pod c.pods_usage ++ query_workloads_usage_by_pods pods c

  unfoldable pub query_all_pods_usage : UsageCache F → List (PodUsageMetric F)
  query_all_pods_usage c = [] ++ c.pods_usage

  unfoldable pub query_all_nodes_usage : UsageCache F → List (ResourceUsageMetric F)
  query_all_nodes_usage c = [] ++ c.nodes_usage

  module _ {Q : Type 0} ⦃float : Float64 F⦄ ⦃quantity : Quantity Q⦄ ⦃readings : Readings Q F⦄ where
    unfoldable pub to_usage : UsageItem Q → ResourceUsageMetric F
    to_usage item = record {
      resource_name = item.name;
      cpu_usage = convert_quality_to_core item.cpu;
      memory_usage = convert_quality_to_gib item.memory;
    }

    unfoldable pub collect_pod_metrics : Option (List (PodMetrics Q)) → UsageCache F → UsageCache F
    collect_pod_metrics none c = c
    collect_pod_metrics (some pods) c = record c {
      pods_usage =
          map
            (λ pod. record {
              name = PodMetrics.name pod;
              namespace = PodMetrics.namespace pod;
              containers_usage = map to_usage (PodMetrics.containers pod);
            })
            pods;
    }

    unfoldable pub collect_node_metrics : Option (List (UsageItem Q)) → UsageCache F → UsageCache F
    collect_node_metrics none c = c
    collect_node_metrics (some nodes) c = record c { nodes_usage = map to_usage nodes }

    -- One tick of `Start`, with the two replies of the metrics server.
    unfoldable pub tick :
        Option (List (UsageItem Q)) → Option (List (PodMetrics Q)) → UsageCache F → UsageCache F
    tick nodes pods c = collect_pod_metrics pods (collect_node_metrics nodes c)
