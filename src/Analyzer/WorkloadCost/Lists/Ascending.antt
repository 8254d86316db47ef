-- ===== src/Analyzer/WorkloadCost/Lists/Ascending.antt =====
-- The lists of costs rise in time.
use kubefin.Base.{ℕ, String, List, [], ◌∷◌, ◌≡◌, Dict, done, Outcome-cases, inl, inr, arith}
use kubefin.Analyzer.Details.Times.{AreKeyed, IsAscending, sort_by_time-IsAscending}
use kubefin.Analyzer.WorkloadCost.Keys.{parse_workload_namespace_name_type}
use kubefin.Analyzer.WorkloadCost.Lists.{
  ClusterWorkloadCostDetail, ClusterWorkloadCost, convert_cluster_workload_cost_to_list,
}

module _ {F : Type 0} where
  -- The times in each list rise strictly.
  abbrev pub AreAscending : List (ClusterWorkloadCost F) → Type 0
  AreAscending [] = Unit {0}
  AreAscending (c ∷ costs) =
      IsAscending ClusterWorkloadCostDetail.timestamp c.cost_list × AreAscending costs

  pub convert-AreAscending :
      (cost : Dict String (Dict ℕ (ClusterWorkloadCostDetail F)))
      (list : List (ClusterWorkloadCost F))
      → AreKeyed ClusterWorkloadCostDetail.timestamp cost
      → convert_cluster_workload_cost_to_list cost ≡ done list
      → AreAscending list
  unfolding convert_cluster_workload_cost_to_list
  convert-AreAscending [] list h ran = ground arith
  convert-AreAscending ((key, details) ∷ cost) list h ran =
      elim (Outcome-cases (parse_workload_namespace_name_type key)) [
        | inl bad ↦ absurd (ground arith)
        | inr (parsed, good) ↦ elim (Outcome-cases (convert_cluster_workload_cost_to_list cost)) [
          | inl bad ↦ absurd (ground arith)
          | inr (ret, rest) ↦ ground (
            arith,
            sort_by_time-IsAscending ClusterWorkloadCostDetail.timestamp details h.0,
            convert-AreAscending cost ret h.1 rest,
          )
        ]
      ]
