-- ===== src/Analyzer/ClusterMetrics/Agreement.antt =====
-- The metrics of a cluster among all clusters and those that are queried for it alone.
pub mod Samples
mod Stages
mod Unset
use kubefin.Base.{
  ℕ, String, Bool, true, false, not, ◌||◌, ◌==◌, string_key, Option, none, some, List, [], ◌∷◌, ◌≡◌,
  ◌∙◌, refl, sym, ap, Dict, get, put, get-put, or_else, is_some, IsMap, IsMap-put, if◌then◌else◌,
  arith, Bool-cases, inl, inr,
}
use text.Mathlib.TextEquality.{eq_iff}
use kubefin.External.Float64.{Float64, nought}
use kubefin.Agent.Values
use kubefin.Analyzer.Query.{Sample}
use kubefin.Analyzer.Series.{label}
use kubefin.Analyzer.ClusterMetrics.{
  ClusterResourcesSummary, count_nodes, count_pods, sum_resources, new_summary,
}
use kubefin.Analyzer.ClusterMetrics.AllClusters.{
  Clusters, by_cluster, by_cluster_last, update_all, parse_all_clusters_nodes_number,
  parse_all_clusters_pods_number, parse_all_clusters_resource_total,
  parse_all_clusters_resource_usage, parse_all_clusters_resource_request,
  parse_all_clusters_resource_available, parse_all_clusters_resource_system_taken, all_clusters,
}
use kubefin.Analyzer.ClusterMetrics.OneCluster.{
  by_label, parse_cluster_nodes_number, parse_cluster_pods_number, parse_cluster_resource_total,
  parse_cluster_resource_usage, parse_cluster_resource_request, parse_cluster_resource_available,
  parse_cluster_resource_system_taken, one_cluster,
}
use kubefin.Analyzer.ClusterMetrics.Agreement.Samples.{
  of_cluster, last_only, is_nonempty, IsMap-by_cluster, IsMap-by_cluster_last, or_else-by_cluster,
  is_some-by_cluster, or_else-by_cluster_last, is_some-by_cluster_last,
}
use kubefin.Analyzer.ClusterMetrics.Agreement.Stages.{all_clusters-one_cluster_of}

module _ {F : Type 0} ⦃float : Float64 F⦄ where
  -- For each cluster and whatever the samples of all clusters are, the summary among all clusters is the
  -- one that the samples of the cluster alone give, with the last of its samples of pods in place of all
  -- of them; there is none if no sample is the cluster's.
  pub all_clusters-one_cluster :
      (to_int64 : F → ℕ) (c : String)
      (nodes pods total usage request available taken : List (Sample F))
      → let mode = Values.billing_mode_label_key in
        let status = Values.pod_scheduled_key in
        let kind = Values.resource_type_label_key in
        let value : F → F = λ v. v in
        get c (
          all_clusters
            (by_cluster to_int64 mode nodes [])
            (by_cluster_last to_int64 status pods [])
            (by_cluster value kind total [])
            (by_cluster value kind usage [])
            (by_cluster value kind request [])
            (by_cluster value kind available [])
            (by_cluster value kind taken []))
        ≡ (if (((((is_nonempty (of_cluster c nodes) || is_nonempty (of_cluster c pods))
                      || is_nonempty (of_cluster c total))
                    || is_nonempty (of_cluster c usage))
                  || is_nonempty (of_cluster c request))
                || is_nonempty (of_cluster c available))
              || is_nonempty (of_cluster c taken)
            then some (
                one_cluster
                  (by_label to_int64 mode (of_cluster c nodes) [])
                  (by_label to_int64 status (last_only (of_cluster c pods)) [])
                  (by_label value kind (of_cluster c total) [])
                  (by_label value kind (of_cluster c usage) [])
                  (by_label value kind (of_cluster c request) [])
                  (by_label value kind (of_cluster c available) [])
                  (by_label value kind (of_cluster c taken) []))
            else none)
  all_clusters-one_cluster to_int64 c nodes pods total usage request available taken =
      let mode = Values.billing_mode_label_key in
      let status = Values.pod_scheduled_key in
      let kind = Values.resource_type_label_key in
      let value : F → F = λ v. v in
      let unique = λ (ret : List (Sample F)). IsMap-by_cluster value kind ret [] tt in
      rw
        (
          all_clusters-one_cluster_of c _ _ _ _ _ _ _
              (
                IsMap-by_cluster to_int64 mode nodes [] tt,
                IsMap-by_cluster_last to_int64 status pods [] tt,
              )
              (unique total, unique usage, unique request, unique available, unique taken),
          is_some-by_cluster to_int64 mode c nodes,
          or_else-by_cluster to_int64 mode c nodes,
          is_some-by_cluster_last to_int64 status c pods,
          or_else-by_cluster_last to_int64 status c pods,
          is_some-by_cluster value kind c total,
          or_else-by_cluster value kind c total,
          is_some-by_cluster value kind c usage,
          or_else-by_cluster value kind c usage,
          is_some-by_cluster value kind c request,
          or_else-by_cluster value kind c request,
          is_some-by_cluster value kind c available,
          or_else-by_cluster value kind c available,
          is_some-by_cluster value kind c taken,
          or_else-by_cluster value kind c taken,
        )
        refl
