-- ===== src/Analyzer/ClusterCost/Agreement.antt =====
-- The costs of a cluster among those of all clusters and the costs that are queried for it alone.
use kubefin.Base.{◌≤◌, String, string_key, Option, some, List, ◌≡◌, length}
use kubefin.External.Float64.{Float64}
use kubefin.Agent.Values
use kubefin.Analyzer.Query.{Sample}
use kubefin.Analyzer.Query.Promql
use kubefin.Analyzer.ClusterMetrics.Agreement.Samples.{of_cluster}

module _ {F : Type 0} ⦃float : Float64 F⦄ where
  -- The samples of a query for all clusters, and those of the same query for one of them, of which there is at
  -- most one.
  abbrev pub AreReplies :
      String → Option (List (Sample F)) → Option (List (Sample F)) → List (Sample F) → Type 0
  AreReplies c all one ret =
      (all ≡ some ret) × ((one ≡ some (of_cluster c ret)) × (length (of_cluster c ret) ≤ 1))
