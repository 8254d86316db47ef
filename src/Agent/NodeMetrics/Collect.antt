-- ===== src/Agent/NodeMetrics/Collect.antt =====
-- What `nodeMetricsCollector` exports (pkg/agent/metrics/core/node_metrics.go). The lister, the
-- provider and the usage cache are read as they stand; an error of one of them is `none`.
use kubefin.Base.{ℕ, String, Option, none, some, List, [], ◌∷◌, ◌++◌, get, put, or_else, string_key}
use mathlib.Core.List.{flat_map}
use kubefin.External.Quantity.{Quantity, Readings}
use kubefin.External.Float64.{Float64}
use kubefin.External.Objects.{Node}
use kubefin.External.Prometheus.{Desc, Labels, Metric}
use kubefin.Agent.Values
use kubefin.Agent.Types.{InstancePriceInfo}
use kubefin.Agent.UsageCache.{ResourceUsageMetric, UsageCache, query_all_nodes_usage}
use kubefin.Agent.Utils.{must_new_const_metric, convert_quality_to_core, convert_quality_to_gib}
use kubefin.Agent.NodeMetrics.{NodeMetricsCollector, NodeResourceInfo}

abbrev pub metrics_cost_label_key : List String
metrics_cost_label_key =
    Values.node_name_label_key ∷ Values.node_instance_type_label_key ∷ Values.billing_mode_label_key
    ∷ Values.node_billing_period_label_key ∷ Values.region_label_key
    ∷ Values.cloud_provider_label_key ∷ Values.cluster_name_label_key ∷ Values.cluster_id_label_key
    ∷ []

abbrev pub metrics_cost_unified_label_key : List String
metrics_cost_unified_label_key =
    Values.node_name_label_key ∷ Values.node_instance_type_label_key ∷ Values.billing_mode_label_key
    ∷ Values.node_billing_period_label_key ∷ Values.region_label_key
    ∷ Values.cloud_provider_label_key ∷ Values.cluster_name_label_key ∷ Values.cluster_id_label_key
    ∷ Values.resource_type_label_key ∷ []

abbrev pub resource_metrics_label_key : List String
resource_metrics_label_key =
    Values.node_name_label_key ∷ Values.cluster_name_label_key ∷ Values.cluster_id_label_key
    ∷ Values.resource_type_label_key ∷ Values.billing_mode_label_key ∷ []

abbrev cost_desc : String → Desc
cost_desc name = record { fq_name = name; variable_labels = metrics_cost_label_key }

abbrev resource_desc : String → Desc
resource_desc name = record { fq_name = name; variable_labels = resource_metrics_label_key }

abbrev pub node_cpu_core_hourly_cost_desc : Desc
node_cpu_core_hourly_cost_desc = cost_desc Values.node_cpu_core_hourly_cost_metrics_name

abbrev pub node_ramgb_hourly_cost_desc : Desc
node_ramgb_hourly_cost_desc = cost_desc Values.node_ramgb_hourly_cost_metrics_name

abbrev pub node_gpu_card_hourly_cost_desc : Desc
node_gpu_card_hourly_cost_desc = cost_desc Values.node_gpu_card_hourly_cost_metrics_name

abbrev pub node_total_cost_desc : Desc
node_total_cost_desc = cost_desc Values.node_total_hourly_cost_metrics_name

abbrev pub node_resource_hourly_cost_desc : Desc
node_resource_hourly_cost_desc = record {
  fq_name = Values.node_resource_hourly_cost_metrics_name;
  variable_labels = metrics_cost_unified_label_key;
}

abbrev pub node_resource_total_desc : Desc
node_resource_total_desc = resource_desc Values.node_resource_total_metrics_name

abbrev pub node_resource_system_taken_desc : Desc
node_resource_system_taken_desc = resource_desc Values.node_resource_system_taken_name

abbrev pub node_resource_available_desc : Desc
node_resource_available_desc = resource_desc Values.node_resource_available_metrics_name

abbrev pub node_resource_usage_desc : Desc
node_resource_usage_desc = resource_desc Values.node_resource_usage_metrics_name

abbrev pub node_resource_requested_desc : Desc
node_resource_requested_desc = resource_desc Values.node_resource_requested_name

module _ {F Q : Type 0} ⦃float : Float64 F⦄ ⦃quantity : Quantity Q⦄ ⦃readings : Readings Q F⦄
    (provider : Node Q → Option (InstancePriceInfo F)) where
  open float use {sub, mul}

  -- The body of the loop of `collectNodeCost`; `itoa` is `strconv.Itoa`.
  unfoldable pub node_cost : (ℕ → String) → NodeMetricsCollector Q → Node Q → List (Metric F)
  node_cost itoa n node = elim (provider node) [
    | none ↦ []
    | some info ↦
        let labels : Labels =
          (Values.node_name_label_key, node.name)
          ∷ (Values.node_instance_type_label_key, info.instance_type)
          ∷ (Values.billing_mode_label_key, info.billing_mode)
          ∷ (Values.node_billing_period_label_key, itoa info.billing_period)
          ∷ (Values.region_label_key, info.region)
          ∷ (Values.cloud_provider_label_key, info.cloud_provider)
          ∷ (Values.cluster_name_label_key, n.cluster_name)
          ∷ (Values.cluster_id_label_key, n.cluster_id)
          ∷ [] in
        let cpu = put Values.resource_type_label_key Values.resource_cpu labels in
        let memory = put Values.resource_type_label_key Values.resource_memory cpu in
        let gpu = put Values.resource_type_label_key Values.resource_gpu memory in
        must_new_const_metric node_cpu_core_hourly_cost_desc info.cpu_core_hourly_price labels
        ∷ must_new_const_metric node_ramgb_hourly_cost_desc info.ram_gib_hourly_price labels
        ∷ must_new_const_metric node_gpu_card_hourly_cost_desc info.gpu_card_hourly_price labels
        ∷ must_new_const_metric node_total_cost_desc info.node_total_hourly_price labels
        ∷ must_new_const_metric node_resource_hourly_cost_desc
            (mul info.cpu_core_hourly_price info.cpu_core) cpu
        ∷ must_new_const_metric node_resource_hourly_cost_desc
            (mul info.ram_gib_hourly_price info.ram_gib) memory
        ∷ must_new_const_metric node_resource_hourly_cost_desc
            (mul info.gpu_card_hourly_price info.gpu_cards) gpu
        ∷ []
  ]

  unfoldable pub collect_node_cost :
      (ℕ → String) → Option (List (Node Q)) → NodeMetricsCollector Q → List (Metric F)
  collect_node_cost itoa none n = []
  collect_node_cost itoa (some nodes) n = flat_map (node_cost itoa n) nodes

  module _ (lister : String → Option (Node Q)) where
    unfoldable pub get_node_cost_info : String → Option (InstancePriceInfo F)
    get_node_cost_info node_name = elim (lister node_name) [
      | none ↦ none
      | some node ↦ provider node
    ]

    abbrev pub metrics_labels : NodeMetricsCollector Q → String → InstancePriceInfo F → Labels
    metrics_labels n node_name info =
        (Values.node_name_label_key, node_name)
        ∷ (Values.cluster_name_label_key, n.cluster_name)
        ∷ (Values.cluster_id_label_key, n.cluster_id)
        ∷ (Values.billing_mode_label_key, info.billing_mode)
        ∷ []

    -- The body of the loop of `collectNodeResourceUsage`.
    unfoldable pub node_usage : NodeMetricsCollector Q → ResourceUsageMetric F → List (Metric F)
    node_usage n node = elim (get_node_cost_info node.resource_name) [
      | none ↦ []
      | some info ↦
          let labels = metrics_labels n node.resource_name info in
          let cpu = put Values.resource_type_label_key Values.resource_cpu labels in
          let memory = put Values.resource_type_label_key Values.resource_memory cpu in
          must_new_const_metric node_resource_usage_desc node.cpu_usage cpu
          ∷ must_new_const_metric node_resource_usage_desc node.memory_usage memory
          ∷ []
    ]

    unfoldable pub collect_node_resource_usage :
        UsageCache F → NodeMetricsCollector Q → List (Metric F)
    collect_node_resource_usage cache n = flat_map (node_usage n) (query_all_nodes_usage cache)

    -- What `n.mutex` guards in `collectNodeResourceMetrics`, for the CPU and the memory: `convert`
    -- reads a quantity, and `have` is the size of the node.
    unfoldable pub guarded_amounts :
        (Q → F) → String → F → NodeResourceInfo Q → Labels → List (Metric F)
    guarded_amounts convert resource have entry labels =
        let allocatable = or_else quantity.zero (get resource entry.allocatable_resource) in
        let requested = or_else quantity.zero (get resource entry.requested_resource) in
        let resource_system_taken = sub have (convert allocatable) in
        let left = quantity.sub allocatable requested in
        must_new_const_metric node_resource_requested_desc (convert requested) labels
        ∷ must_new_const_metric node_resource_system_taken_desc resource_system_taken labels
        ∷ must_new_const_metric node_resource_available_desc (convert left) labels
        ∷ []

    -- The same for the GPUs, which have no share of the system.
    unfoldable pub guarded_gpus : NodeResourceInfo Q → Labels → List (Metric F)
    guarded_gpus entry labels =
        let allocatable =
          or_else quantity.zero (get Values.resource_gpu entry.allocatable_resource) in
        let requested = or_else quantity.zero (get Values.resource_gpu entry.requested_resource) in
        let left = quantity.sub allocatable requested in
        must_new_const_metric node_resource_requested_desc (convert_quality_to_gib requested) labels
        ∷ must_new_const_metric node_resource_available_desc (convert_quality_to_gib left) labels
        ∷ []

    -- `if _, ok := n.nodeResource[node.Name]; ok { ... }`
    unfoldable pub if_known :
        (NodeResourceInfo Q → List (Metric F)) → Option (NodeResourceInfo Q) → List (Metric F)
    if_known emit none = []
    if_known emit (some entry) = emit entry

    -- The body of the loop of `collectNodeResourceMetrics`.
    unfoldable pub node_resource_metrics : NodeMetricsCollector Q → Node Q → List (Metric F)
    node_resource_metrics n node = elim (get_node_cost_info node.name) [
      | none ↦ []
      | some info ↦
          let labels = metrics_labels n node.name info in
          let cpu = put Values.resource_type_label_key Values.resource_cpu labels in
          let memory = put Values.resource_type_label_key Values.resource_memory cpu in
          let gpu = put Values.resource_type_label_key Values.resource_gpu memory in
          let guarded = λ (emit : NodeResourceInfo Q → List (Metric F)).
            if_known emit (get node.name n.node_resource) in
          (must_new_const_metric node_resource_total_desc info.cpu_core cpu
            ∷ guarded (λ entry.
              guarded_amounts convert_quality_to_core Values.resource_cpu info.cpu_core entry cpu))
          ++ ((must_new_const_metric node_resource_total_desc info.ram_gib memory
                ∷ guarded (λ entry.
                  guarded_amounts convert_quality_to_gib Values.resource_memory info.ram_gib entry
                    memory))
              ++ (must_new_const_metric node_resource_total_desc info.gpu_cards gpu
                  ∷ guarded (λ entry. guarded_gpus entry gpu)))
    ]

    unfoldable pub collect_node_resource_metrics :
        Option (List (Node Q)) → NodeMetricsCollector Q → List (Metric F)
    collect_node_resource_metrics none n = []
    collect_node_resource_metrics (some nodes) n = flat_map (node_resource_metrics n) nodes

    -- `Collect`: the listed nodes of the two calls of `List` are given one by one.
    unfoldable pub collect :
        (ℕ → String)
        → Option (List (Node Q))
        → Option (List (Node Q))
        → UsageCache F
        → NodeMetricsCollector Q
        → List (Metric F)
    collect itoa nodes nodes' cache n =
        collect_node_cost itoa nodes n
        ++ (collect_node_resource_usage cache n ++ collect_node_resource_metrics nodes' n)
