-- ===== src/Agent/WorkloadMetrics.antt =====
-- What `workloadMetricsCollector` exports (pkg/agent/metrics/core/workload_metrics.go). A workload is
-- a Deployment, DaemonSet, StatefulSet or an object of a configured type.
pub mod Totals
mod Tests
pub mod Mapper
use kubefin.Base.{
  ℕ, String, Bool, true, false, not, ◌==◌, string_key, Option, none, some, List, [], ◌∷◌, ◌++◌,
  Dict, put, foldl, length, if◌then◌else◌,
}
use mathlib.Core.List.{flat_map}
use kubefin.External.Quantity.{Quantity, Readings}
use kubefin.External.Float64.{Float64, nought}
use kubefin.External.Objects.{Pod, Node}
use kubefin.External.Prometheus.{Desc, Labels, Metric}
use kubefin.Agent.Values
use kubefin.Agent.Types.{InstancePriceInfo}
use kubefin.Agent.UsageCache.{
  ResourceUsageMetric, PodUsageMetric, UsageCache, query_workloads_usage_by_pods,
}
use kubefin.Agent.Utils.{
  must_new_const_metric, accumulate, parse_pod_resource_cost, parse_pod_resource_request,
  ContainerRequests,
}
use kubefin.Agent.PodMetrics.{by_container}

abbrev pub workload_cr_none_care_label_key : List String
workload_cr_none_care_label_key =
    Values.workload_type_label_key ∷ Values.workload_name_label_key ∷ Values.namespace_label_key
    ∷ Values.cluster_name_label_key ∷ Values.cluster_id_label_key ∷ Values.labels_label_key
    ∷ Values.resource_type_label_key ∷ []

abbrev pub workload_cr_care_label_key : List String
workload_cr_care_label_key =
    Values.workload_type_label_key ∷ Values.workload_name_label_key ∷ Values.namespace_label_key
    ∷ Values.cluster_name_label_key ∷ Values.cluster_id_label_key ∷ Values.labels_label_key
    ∷ Values.resource_type_label_key ∷ Values.container_name_label_key ∷ []

abbrev pub workload_resource_cost_desc : Desc
workload_resource_cost_desc = record {
  fq_name = Values.workload_resource_cost_metrics_name;
  variable_labels = workload_cr_none_care_label_key;
}

abbrev pub workload_pod_count_desc : Desc
workload_pod_count_desc = record {
  fq_name = Values.workload_pod_count_metrics_name;
  variable_labels = workload_cr_none_care_label_key;
}

abbrev pub workload_resource_request_desc : Desc
workload_resource_request_desc = record {
  fq_name = Values.workload_resource_request_metrics_name;
  variable_labels = workload_cr_care_label_key;
}

abbrev pub workload_resource_usage_desc : Desc
workload_resource_usage_desc = record {
  fq_name = Values.workload_resource_usage_metrics_name;
  variable_labels = workload_cr_care_label_key;
}

-- An object that owns pods; `S` is the type of its selector.
pub record Workload (S : Type 0) : Type 0 where
  pub name : String
  pub namespace : String
  pub labels : Dict String String
  pub selector : S

pub record WorkloadMetricsCollector : Type 0 where
  pub cluster_name : String
  pub cluster_id : String

-- An entry of `Spec.WorkloadsAllocation` of a CustomAllocationConfiguration.
pub record WorkloadAllocation : Type 0 where
  pub api_version : String
  pub kind : String
  pub workload_type_alias : String
  pub script : String

module _ {F : Type 0} ⦃float : Float64 F⦄ where
  -- `for name, value := range from { if _, ok := into[name]; !ok { into[name] = 0 }; into[name] += value }`
  unfoldable pub merge : Dict String F → Dict String F → Dict String F
  merge [] into = into
  merge ((name, value) ∷ from) into = merge from (accumulate name value into)

  unfoldable pub collect_pod_metrics : {Q : Type 0} → List (Pod Q) → Labels → List (Metric F)
  collect_pod_metrics pods labels =
      must_new_const_metric workload_pod_count_desc (float.of_ℕ (length pods))
        (put Values.resource_type_label_key "pod" labels)
      ∷ []

  -- The loops of `collectResourceUsageMetrics`: the CPU and the memory of each container name.
  unfoldable pub sum_usage :
      List (ResourceUsageMetric F) → Dict String F × Dict String F → Dict String F × Dict String F
  sum_usage [] totals = totals
  sum_usage (c ∷ cs) (cpu, memory) =
      sum_usage cs (
        accumulate c.resource_name c.cpu_usage cpu,
        accumulate c.resource_name c.memory_usage memory,
      )

  unfoldable pub collect_resource_usage_metrics :
      {Q : Type 0} → UsageCache F → List (Pod Q) → Labels → List (Metric F)
  collect_resource_usage_metrics cache pods labels =
      let used =
        flat_map PodUsageMetric.containers_usage (query_workloads_usage_by_pods pods cache) in
      let totals = sum_usage used ([], []) in
      let cpu = put Values.resource_type_label_key Values.resource_cpu labels in
      let memory = put Values.resource_type_label_key Values.resource_memory labels in
      by_container workload_resource_usage_desc cpu totals.0
      ++ by_container workload_resource_usage_desc memory totals.1

  module _ {Q : Type 0} ⦃quantity : Quantity Q⦄ ⦃readings : Readings Q F⦄ where
    unfoldable pub total_cost :
        (Node Q → Option (InstancePriceInfo F)) → (String → Option (Node Q)) → List (Pod Q) → F
    total_cost provider node_lister =
        foldl (λ total pod. float.add total (parse_pod_resource_cost pod provider node_lister))
          nought

    unfoldable pub collect_cost_metrics :
        (Node Q → Option (InstancePriceInfo F))
        → (String → Option (Node Q))
        → List (Pod Q)
        → Labels
        → List (Metric F)
    collect_cost_metrics provider node_lister pods labels =
        must_new_const_metric workload_resource_cost_desc (total_cost provider node_lister pods)
          (put Values.resource_type_label_key "cost" labels)
        ∷ []

    -- The first loop of `collectResourceRequestMetrics`.
    unfoldable pub sum_pod_requests : List (Pod Q) → ContainerRequests F → ContainerRequests F
    sum_pod_requests [] total = total
    sum_pod_requests (pod ∷ pods) total =
        let request : ContainerRequests F =
          parse_pod_resource_request pod (not (pod.node_name == "")) in
        sum_pod_requests pods (record {
          cpu = merge request.cpu total.cpu;
          ram = merge request.ram total.ram;
          gpu = merge request.gpu total.gpu;
        })

    unfoldable pub collect_resource_request_metrics : List (Pod Q) → Labels → List (Metric F)
    collect_resource_request_metrics pods labels =
        let total = sum_pod_requests pods (record { cpu = []; ram = []; gpu = [] }) in
        let cpu = put Values.resource_type_label_key Values.resource_cpu labels in
        let memory = put Values.resource_type_label_key Values.resource_memory labels in
        let gpu = put Values.resource_type_label_key Values.resource_gpu labels in
        by_container workload_resource_request_desc cpu total.cpu
        ++ (by_container workload_resource_request_desc memory total.ram
            ++ by_container workload_resource_request_desc gpu total.gpu)

    module _ (provider : Node Q → Option (InstancePriceInfo F))
        (node_lister : String → Option (Node Q)) (cache : UsageCache F)
        (w : WorkloadMetricsCollector) where
      -- The metrics of one workload, from its labels and its pods.
      unfoldable pub workload_metrics :
          {S : Type 0} → String → Workload S → String → List (Pod Q) → List (Metric F)
      workload_metrics kind workload workload_labels pods =
          let labels : Labels =
            (Values.workload_type_label_key, kind)
            ∷ (Values.workload_name_label_key, workload.name)
            ∷ (Values.namespace_label_key, workload.namespace)
            ∷ (Values.cluster_name_label_key, w.cluster_name)
            ∷ (Values.cluster_id_label_key, w.cluster_id)
            ∷ (Values.labels_label_key, workload_labels)
            ∷ [] in
          (collect_pod_metrics pods labels ++ collect_cost_metrics provider node_lister pods labels)
          ++ (collect_resource_request_metrics pods labels
              ++ collect_resource_usage_metrics cache pods labels)

      -- `marshal` is `json.Marshal`, `as_selector` is `metav1.LabelSelectorAsSelector` and `list_pods` is
      -- `podLister.List`. Labels that cannot be encoded and pods that cannot be listed pass a workload
      -- over; a bad selector ends the loop.
      module _ {S T : Type 0} (marshal : Dict String String → Option String)
          (as_selector : S → Option T) (list_pods : T → Option (List (Pod Q))) where
        unfoldable pub collect_workloads : String → List (Workload S) → List (Metric F)
        collect_workloads kind [] = []
        collect_workloads kind (workload ∷ workloads) =
            let rest = collect_workloads kind workloads in
            elim (marshal workload.labels) [
              | none ↦ rest
              | some workload_labels ↦ elim (as_selector workload.selector) [
                | none ↦ []
                | some selector ↦ elim (list_pods selector) [
                  | none ↦ rest
                  | some pods ↦ workload_metrics kind workload workload_labels pods ++ rest
                ]
              ]
            ]

        unfoldable pub collect_deployment_resource_metrics :
            Option (List (Workload S)) → List (Metric F)
        collect_deployment_resource_metrics none = []
        collect_deployment_resource_metrics (some deployments) =
            collect_workloads "deployment" deployments

        unfoldable pub collect_daemon_set_resource_metrics :
            Option (List (Workload S)) → List (Metric F)
        collect_daemon_set_resource_metrics none = []
        collect_daemon_set_resource_metrics (some daemon_sets) =
            collect_workloads "daemonset" daemon_sets

        unfoldable pub collect_stateful_set_resource_metrics :
            Option (List (Workload S)) → List (Metric F)
        collect_stateful_set_resource_metrics none = []
        collect_stateful_set_resource_metrics (some stateful_sets) =
            collect_workloads "statefulset" stateful_sets

      -- Custom workloads. `resource_of` is `parseCustomTargetToGVR`, `list_objects` the dynamic client,
      -- `extract` the Lua script of pkg/agent/reference and `list_pods` is `podLister.Pods(namespace).List`.
      module _ {R T S : Type 0} (marshal : Dict String String → Option String)
          (resource_of : String → String → Option R) (list_objects : R → Option (List (Workload S)))
          (extract : Workload S → String → Option T)
          (list_pods : String → T → Option (List (Pod Q))) where
        -- The body of the inner loop: any error passes the object over.
        unfoldable pub custom_workload : WorkloadAllocation → Workload S → List (Metric F)
        custom_workload cfg object = elim (extract object cfg.script) [
          | none ↦ []
          | some pod_label_selector ↦ elim (list_pods object.namespace pod_label_selector) [
            | none ↦ []
            | some pods ↦ elim (marshal object.labels) [
              | none ↦ []
              | some work_labels ↦ workload_metrics cfg.workload_type_alias object work_labels pods
            ]
          ]
        ]

        unfoldable pub custom_allocation : WorkloadAllocation → List (Metric F)
        custom_allocation cfg = elim (resource_of cfg.api_version cfg.kind) [
          | none ↦ []
          | some gvr ↦ elim (list_objects gvr) [
            | none ↦ []
            | some workloads ↦ flat_map (custom_workload cfg) workloads
          ]
        ]

        unfoldable pub collect_custom_workload_metrics :
            Option (List (List WorkloadAllocation)) → List (Metric F)
        collect_custom_workload_metrics none = []
        collect_custom_workload_metrics (some groups) = flat_map (flat_map custom_allocation) groups
