-- ===== src/Analyzer/ClusterMetrics/Agreement/Unset.antt =====
-- The fields of a summary of one cluster that a stage has not set yet.
use kubefin.Base.{ℕ, String, string_key, ◌≡◌, refl, Dict}
use kubefin.External.Float64.{Float64, nought}
use kubefin.Analyzer.ClusterMetrics.{ClusterResourcesSummary, new_summary}
use kubefin.Analyzer.ClusterMetrics.OneCluster.{
  parse_cluster_nodes_number, parse_cluster_pods_number, parse_cluster_resource_total,
  parse_cluster_resource_usage, parse_cluster_resource_request, parse_cluster_resource_available,
}

module _ {F : Type 0} ⦃float : Float64 F⦄ where
  pub unset_total :
      (nodes pods : Dict String ℕ)
      → let d : ClusterResourcesSummary F =
          parse_cluster_pods_number pods (parse_cluster_nodes_number nodes new_summary) in
        (d.cpu_core_total ≡ nought) × (d.ram_gib_total ≡ nought)
  unfolding parse_cluster_nodes_number parse_cluster_pods_number
  unset_total nodes pods = (refl, refl)

  pub unset_usage :
      (nodes pods : Dict String ℕ) (total : Dict String F)
      → let d : ClusterResourcesSummary F =
          parse_cluster_resource_total total
            (parse_cluster_pods_number pods (parse_cluster_nodes_number nodes new_summary)) in
        (d.cpu_core_usage ≡ nought) × (d.ram_gib_usage ≡ nought)
  unfolding parse_cluster_nodes_number parse_cluster_pods_number parse_cluster_resource_total
  unset_usage nodes pods total = (refl, refl)

  pub unset_request :
      (nodes pods : Dict String ℕ) (total usage : Dict String F)
      → let d : ClusterResourcesSummary F = parse_cluster_resource_usage usage (
          parse_cluster_resource_total total
            (parse_cluster_pods_number pods (parse_cluster_nodes_number nodes new_summary))) in
        (d.cpu_core_request ≡ nought) × (d.ram_gib_request ≡ nought)
  unfolding parse_cluster_nodes_number parse_cluster_pods_number parse_cluster_resource_total
      parse_cluster_resource_usage
  unset_request nodes pods total usage = (refl, refl)

  pub unset_available :
      (nodes pods : Dict String ℕ) (total usage request : Dict String F)
      → let d : ClusterResourcesSummary F = parse_cluster_resource_request request (
          parse_cluster_resource_usage usage (
            parse_cluster_resource_total total
              (parse_cluster_pods_number pods (parse_cluster_nodes_number nodes new_summary)))) in
        (d.cpu_core_available ≡ nought) × (d.ram_gib_available ≡ nought)
  unfolding parse_cluster_nodes_number parse_cluster_pods_number parse_cluster_resource_total
      parse_cluster_resource_usage parse_cluster_resource_request
  unset_available nodes pods total usage request = (refl, refl)

  pub unset_system_taken :
      (nodes pods : Dict String ℕ) (total usage request available : Dict String F)
      → let d : ClusterResourcesSummary F = parse_cluster_resource_available available (
          parse_cluster_resource_request request (
            parse_cluster_resource_usage usage (
              parse_cluster_resource_total total (
                parse_cluster_pods_number pods (parse_cluster_nodes_number nodes new_summary))))) in
        (d.cpu_core_system_taken ≡ nought) × (d.ram_gib_system_taken ≡ nought)
  unfolding parse_cluster_nodes_number parse_cluster_pods_number parse_cluster_resource_total
      parse_cluster_resource_usage parse_cluster_resource_request parse_cluster_resource_available
  unset_system_taken nodes pods total usage request available = (refl, refl)
