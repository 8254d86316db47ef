-- ===== src/Agent/PodMetrics.antt =====
-- What `podMetricsCollector` exports (pkg/agent/metrics/core/pod_metrics.go). `marshal` is
-- `json.Marshal` of a map of labels, `none` on an error.
pub mod Usage
use kubefin.Base.{
  String, Bool, true, false, not, ◌==◌, string_key, Option, none, some, List, [], ◌∷◌, ◌++◌, map,
  Dict, put, if◌then◌else◌,
}
use kubefin.External.Quantity.{Quantity, Readings}
use kubefin.External.Float64.{Float64}
use kubefin.External.Objects.{Pod, Node}
use kubefin.External.Prometheus.{Desc, Labels, Metric}
use kubefin.Agent.Values
use kubefin.Agent.Types.{InstancePriceInfo}
use kubefin.Agent.UsageCache.{ResourceUsageMetric, PodUsageMetric, UsageCache, query_all_pods_usage}
use kubefin.Agent.Utils.{
  must_new_const_metric, parse_pod_resource_cost, parse_pod_resource_request, ContainerRequests,
}

abbrev pub container_none_care_label_key : List String
container_none_care_label_key =
    Values.namespace_label_key ∷ Values.pod_name_label_key ∷ Values.cluster_name_label_key
    ∷ Values.cluster_id_label_key ∷ Values.resource_type_label_key ∷ Values.pod_scheduled_key
    ∷ Values.labels_label_key ∷ []

abbrev pub container_care_label_key : List String
container_care_label_key =
    Values.namespace_label_key ∷ Values.pod_name_label_key ∷ Values.cluster_name_label_key
    ∷ Values.cluster_id_label_key ∷ Values.resource_type_label_key ∷ Values.labels_label_key
    ∷ Values.container_name_label_key ∷ []

abbrev pub pod_resource_cost_desc : Desc
pod_resource_cost_desc = record {
  fq_name = Values.pod_resource_cost_metrics_name;
  variable_labels = container_none_care_label_key;
}

abbrev pub pod_resource_request_desc : Desc
pod_resource_request_desc = record {
  fq_name = Values.pod_resource_request_metrics_name;
  variable_labels = container_care_label_key;
}

abbrev pub pod_resource_usage_desc : Desc
pod_resource_usage_desc = record {
  fq_name = Values.pod_resource_usage_metrics_name;
  variable_labels = container_care_label_key;
}

pub record PodMetricsCollector : Type 0 where
  pub cluster_id : String
  pub cluster_name : String

-- One metric for each container, `labels` with its name.
unfoldable pub by_container : {F : Type 0} → Desc → Labels → Dict String F → List (Metric F)
by_container desc labels [] = []
by_container desc labels ((container_name, v) ∷ m) =
    let own = put Values.container_name_label_key container_name labels in
    must_new_const_metric desc v own ∷ by_container desc own m

abbrev pub common_labels : PodMetricsCollector → String → String → String → Labels
common_labels p namespace name pod_labels =
    (Values.namespace_label_key, namespace)
    ∷ (Values.pod_name_label_key, name)
    ∷ (Values.cluster_name_label_key, p.cluster_name)
    ∷ (Values.cluster_id_label_key, p.cluster_id)
    ∷ (Values.labels_label_key, pod_labels)
    ∷ []

-- The body of the loop of `CollectPodResourceUsage`, after the labels are encoded.
unfoldable pub usage_metrics :
    {F : Type 0} → PodMetricsCollector → PodUsageMetric F → String → List (Metric F)
usage_metrics {F} p pod pod_labels =
    let labels = common_labels p pod.namespace pod.name pod_labels in
    let cpu = put Values.resource_type_label_key Values.resource_cpu labels in
    let memory = put Values.resource_type_label_key Values.resource_memory labels in
    let named = λ (read : ResourceUsageMetric F → F).
      map {B = String × F} (λ c. (ResourceUsageMetric.resource_name c, read c))
        pod.containers_usage in
    by_container pod_resource_usage_desc cpu (named (λ c. c.cpu_usage))
    ++ by_container pod_resource_usage_desc memory (named (λ c. c.memory_usage))

module _ {F Q : Type 0} ⦃float : Float64 F⦄ ⦃quantity : Quantity Q⦄ ⦃readings : Readings Q F⦄
    (marshal : Dict String String → Option String) where
  -- The body of the loop of `Collect`, after the labels are encoded.
  unfoldable pub pod_metrics :
      (Node Q → Option (InstancePriceInfo F))
      → (String → Option (Node Q))
      → PodMetricsCollector
      → Pod Q
      → String
      → List (Metric F)
  pod_metrics provider node_lister p pod pod_labels =
      let cost = parse_pod_resource_cost pod provider node_lister in
      let scheduled : String = if not (pod.node_name == "") then "true" else "false" in
      let labels = common_labels p pod.namespace pod.name pod_labels in
      let cost_labels =
        put Values.resource_type_label_key "cost" (put Values.pod_scheduled_key scheduled labels) in
      let request : ContainerRequests F =
        parse_pod_resource_request pod (not (pod.node_name == "")) in
      let cpu = put Values.resource_type_label_key Values.resource_cpu labels in
      let memory = put Values.resource_type_label_key Values.resource_memory labels in
      let gpu = put Values.resource_type_label_key Values.resource_gpu labels in
      (must_new_const_metric pod_resource_cost_desc cost cost_labels
        ∷ by_container pod_resource_request_desc cpu request.cpu)
      ++ (by_container pod_resource_request_desc memory request.ram
          ++ by_container pod_resource_request_desc gpu request.gpu)

  -- The metrics of the pods, and whether the loop came to its end: labels that cannot be encoded end
  -- the collection.
  unfoldable pub collect_pods :
      (Node Q → Option (InstancePriceInfo F))
      → (String → Option (Node Q))
      → PodMetricsCollector
      → List (Pod Q)
      → List (Metric F) × Bool
  collect_pods provider node_lister p [] = ([], true)
  collect_pods provider node_lister p (pod ∷ pods) = elim (marshal pod.labels) [
    | none ↦ ([], false)
    | some pod_labels ↦
        let rest = collect_pods provider node_lister p pods in
        (pod_metrics provider node_lister p pod pod_labels ++ rest.0, rest.1)
  ]

  -- `pod_lister` is `podLister.Pods(namespace).Get(name)`: a pod that it does not know ends the loop,
  -- and so do labels that cannot be encoded.
  unfoldable pub collect_usages :
      (String → String → Option (Pod Q))
      → PodMetricsCollector
      → List (PodUsageMetric F)
      → List (Metric F)
  collect_usages pod_lister p [] = []
  collect_usages pod_lister p (pod ∷ pods) = elim (pod_lister pod.namespace pod.name) [
    | none ↦ []
    | some pod_standard ↦ elim (marshal pod_standard.labels) [
      | none ↦ []
      | some pod_labels ↦ usage_metrics p pod pod_labels ++ collect_usages pod_lister p pods
    ]
  ]

  unfoldable pub collect_pod_resource_usage :
      (String → String → Option (Pod Q)) → UsageCache F → PodMetricsCollector → List (Metric F)
  collect_pod_resource_usage pod_lister cache p =
      collect_usages pod_lister p (query_all_pods_usage cache)

  unfoldable pub collect :
      Option (List (Pod Q))
      → (Node Q → Option (InstancePriceInfo F))
      → (String → Option (Node Q))
      → (String → String → Option (Pod Q))
      → UsageCache F
      → PodMetricsCollector
      → List (Metric F)
  collect none provider node_lister pod_lister cache p = []
  collect (some pods) provider node_lister pod_lister cache p =
      let collected = collect_pods provider node_lister p pods in
      if collected.1
      then collected.0 ++ collect_pod_resource_usage pod_lister cache p
      else collected.0
