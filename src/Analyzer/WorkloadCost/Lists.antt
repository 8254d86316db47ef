-- ===== src/Analyzer/WorkloadCost/Lists.antt =====
-- The details of a workload's cost, and the list that is made from the map of all details
-- (pkg/analyzer/server/implementation/workload_cost.go, pkg/analyzer/types/types.go).
pub mod Ascending
use kubefin.Base.{ℕ, String, List, [], ◌∷◌, Dict, Outcome, done, panic, ◌>>=◌}
use kubefin.External.Float64.{Float64, nought}
use kubefin.Analyzer.Details.{sort_by_time, details_list}
use kubefin.Analyzer.WorkloadCost.Keys.{parse_workload_namespace_name_type}

pub record ClusterWorkloadCostDetail (F : Type 0) : Type 0 where
  pub timestamp : ℕ
  pub pod_count : F
  pub cpu_core_request : F
  pub cpu_core_usage : F
  pub ram_gib_request : F
  pub ram_gib_usage : F
  pub total_cost : F

pub record ClusterWorkloadCost (F : Type 0) : Type 0 where
  pub namespace : String
  pub workload_name : String
  pub workload_type : String
  pub cost_list : List (ClusterWorkloadCostDetail F)

-- `&types.ClusterWorkloadCostDetail{Timestamp: timeStamp}`
abbrev pub new_detail : {F : Type 0} ⦃float : Float64 F⦄ → ℕ → ClusterWorkloadCostDetail F
new_detail t = record {
  timestamp = t;
  pod_count = nought;
  cpu_core_request = nought;
  cpu_core_usage = nought;
  ram_gib_request = nought;
  ram_gib_usage = nought;
  total_cost = nought;
}

unfoldable pub convert_cluster_workload_cost_to_list :
    {F : Type 0}
    → Dict String (Dict ℕ (ClusterWorkloadCostDetail F))
    → Outcome (List (ClusterWorkloadCost F))
convert_cluster_workload_cost_to_list [] = done []
convert_cluster_workload_cost_to_list {F} ((workload_key, details) ∷ workload_cost) = do
  parsed ← parse_workload_namespace_name_type workload_key
  ret ← convert_cluster_workload_cost_to_list workload_cost
  let cost : ClusterWorkloadCost F = record {
    namespace = parsed.1;
    workload_name = parsed.2;
    workload_type = parsed.0;
    cost_list = sort_by_time ClusterWorkloadCostDetail.timestamp (details_list details);
  }
  done (cost ∷ ret)
