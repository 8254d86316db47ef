-- ===== src/Agent/NodeMetrics/Exports.antt =====
-- What `nodeMetricsCollector` exports, against the pods of the cluster.
use kubefin.Base.{
  String, Option, none, some, List, [], ◌∷◌, ◌++◌, ◌≡◌, get, or_else, string_key, arith, put,
}
use kubefin.External.Quantity.{Quantity, Readings, IsExact}
use kubefin.External.Float64.{Float64}
use kubefin.External.Objects.{Pod, Node}
use kubefin.External.Prometheus.{Desc, Metric}
use kubefin.Agent.Values
use kubefin.Agent.Types.{InstancePriceInfo}
use kubefin.Agent.Utils.{
  convert_quality_to_core, convert_quality_to_gib, convert_prometheus_label_values_in_order,
}
use kubefin.Agent.NodeMetrics.{NodeMetricsCollector, NodeResourceInfo, requested_at}
use kubefin.Agent.NodeMetrics.Totals.{total}
use kubefin.Agent.NodeMetrics.World.{Reach, Reach-IsTracked}
use kubefin.Agent.NodeMetrics.Collect

module _ {F Q : Type 0} ⦃float : Float64 F⦄ ⦃quantity : Quantity Q⦄ ⦃readings : Readings Q F⦄
    (provider : Node Q → Option (InstancePriceInfo F)) (lister : String → Option (Node Q))
    (n : NodeMetricsCollector Q) (node : Node Q) (info : InstancePriceInfo F) where
  open float use {sub}

  -- A metric of the node for a resource, its labels in the order of the descriptor.
  abbrev pub row : Desc → String → F → Metric F
  row desc resource value = record {
    desc = desc;
    value = value;
    label_values = node.name ∷ n.cluster_name ∷ n.cluster_id ∷ resource ∷ info.billing_mode ∷ [];
  }

  -- The rows of a resource when the pods of the node request `requested` of it.
  abbrev pub rows : (Q → F) → String → F → Q → Q → List (Metric F)
  rows convert resource have allocatable requested =
      row Collect.node_resource_total_desc resource have
      ∷ row Collect.node_resource_requested_desc resource (convert requested)
      ∷ row Collect.node_resource_system_taken_desc resource (sub have (convert allocatable))
      ∷ row Collect.node_resource_available_desc resource
          (convert (quantity.sub allocatable requested))
      ∷ []

  abbrev pub gpu_rows : Q → Q → List (Metric F)
  gpu_rows allocatable requested =
      row Collect.node_resource_total_desc Values.resource_gpu info.gpu_cards
      ∷ row Collect.node_resource_requested_desc Values.resource_gpu
          (convert_quality_to_gib requested)
      ∷ row Collect.node_resource_available_desc Values.resource_gpu
          (convert_quality_to_gib (quantity.sub allocatable requested))
      ∷ []

  abbrev pub allocatable_of : String → NodeResourceInfo Q → Q
  allocatable_of r entry = or_else quantity.zero (get r entry.allocatable_resource)

  -- Where sums of quantities are exact, the metrics of a known node with a price, in a state that is
  -- reached as Reach has it, are for CPU, memory and GPU its size, its requests, what the system
  -- takes (not for GPU) and what is available: the requests are the sums over the live pods of the
  -- node and over the lost pods that are still counted on it, and what is available is the allocatable
  -- amount less that sum. Both are converted to GiB for the GPU too.
  pub node_resource_metrics-Reach :
      {pods lost : List (Pod Q)} (exact : IsExact Q) (entry : NodeResourceInfo Q)
      → Reach n pods lost
      → get node.name n.node_resource ≡ some entry
      → Collect.get_node_cost_info provider lister node.name ≡ some info
      → Collect.node_resource_metrics provider lister n node ≡ (
          rows convert_quality_to_core Values.resource_cpu info.cpu_core
            (allocatable_of Values.resource_cpu entry)
            (total node.name Values.resource_cpu (pods ++ lost))
          ++ (rows convert_quality_to_gib Values.resource_memory info.ram_gib
                (allocatable_of Values.resource_memory entry)
                (total node.name Values.resource_memory (pods ++ lost))
              ++ gpu_rows
                  (allocatable_of Values.resource_gpu entry)
                  (total node.name Values.resource_gpu (pods ++ lost))))
  unfolding Collect.node_resource_metrics Collect.if_known Collect.guarded_amounts
      Collect.guarded_gpus convert_prometheus_label_values_in_order get put requested_at
  node_resource_metrics-Reach {pods} {lost} exact entry reach known priced =
      let t = Reach-IsTracked exact reach in
      let cpu : or_else quantity.zero (get Values.resource_cpu entry.requested_resource)
          ≡ total node.name Values.resource_cpu (pods ++ lost) =
        ground (arith, t.amounts node.name Values.resource_cpu) in
      let memory : or_else quantity.zero (get Values.resource_memory entry.requested_resource)
          ≡ total node.name Values.resource_memory (pods ++ lost) =
        ground (arith, t.amounts node.name Values.resource_memory) in
      let gpu : or_else quantity.zero (get Values.resource_gpu entry.requested_resource)
          ≡ total node.name Values.resource_gpu (pods ++ lost) =
        ground (arith, t.amounts node.name Values.resource_gpu) in
      rw (priced, known, Collect.node_resource_metrics, Collect.if_known) (rw (cpu, memory, gpu))

  -- A node that the collector does not know is exported with its sizes alone, and a node without a
  -- price not at all.
  pub node_resource_metrics_unknown :
      get node.name n.node_resource ≡ none
      → Collect.get_node_cost_info provider lister node.name ≡ some info
      → Collect.node_resource_metrics provider lister n node
        ≡ row Collect.node_resource_total_desc Values.resource_cpu info.cpu_core
          ∷ row Collect.node_resource_total_desc Values.resource_memory info.ram_gib
          ∷ row Collect.node_resource_total_desc Values.resource_gpu info.gpu_cards
          ∷ []
  unfolding Collect.node_resource_metrics Collect.if_known convert_prometheus_label_values_in_order
      get put
  node_resource_metrics_unknown unknown priced =
      rw (priced, unknown, Collect.node_resource_metrics, Collect.if_known)
