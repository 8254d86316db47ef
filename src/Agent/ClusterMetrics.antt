-- ===== src/Agent/ClusterMetrics.antt =====
-- What `clusterStateMetricsCollector` exports (pkg/agent/metrics/core/cluster_metrics.go).
use kubefin.Base.{String, Option, none, some, List, [], ◌∷◌, Outcome, done, panic}
use kubefin.External.Float64.{Float64}
use kubefin.External.Objects.{Node}
use kubefin.External.Prometheus.{Desc, Labels, Metric}
use kubefin.Agent.Values
use kubefin.Agent.Types.{InstancePriceInfo}
use kubefin.Agent.Utils.{must_new_const_metric}

abbrev pub cluster_metrics_label_key : List String
cluster_metrics_label_key =
    Values.region_label_key ∷ Values.cloud_provider_label_key ∷ Values.cluster_name_label_key
    ∷ Values.cluster_id_label_key ∷ []

abbrev pub cluster_state_desc : Desc
cluster_state_desc = record {
  fq_name = Values.cluster_active_metrics_name;
  variable_labels = cluster_metrics_label_key;
}

pub record ClusterStateMetricsCollector : Type 0 where
  pub cloud_provider : String
  pub cluster_name : String
  pub cluster_id : String

-- `nodes[0]` panics on an empty list.
unfoldable pub collect :
    {F Q : Type 0} ⦃float : Float64 F⦄
    → Option (List (Node Q))
    → (Node Q → Option (InstancePriceInfo F))
    → ClusterStateMetricsCollector
    → Outcome (List (Metric F))
collect none provider c = done []
collect (some []) provider c = panic
collect ⦃float⦄ (some (node ∷ nodes)) provider c = elim (provider node) [
  | none ↦ done []
  | some node_cost_info ↦
      let labels : Labels =
        (Values.region_label_key, node_cost_info.region)
        ∷ (Values.cloud_provider_label_key, c.cloud_provider)
        ∷ (Values.cluster_name_label_key, c.cluster_name)
        ∷ (Values.cluster_id_label_key, c.cluster_id)
        ∷ [] in
      done (must_new_const_metric cluster_state_desc (float.of_ℕ 1) labels ∷ [])
]
