-- ===== src/Analyzer/ClusterMetrics/Properties/Missing.antt =====
-- What becomes of clusters whose property is missing.
use kubefin.Base.{
  String, string_key, List, [], ◌∷◌, ◌≡◌, refl, Dict, get, or_else, if◌then◌else◌, done, panic,
  arith,
}
use kubefin.Analyzer.NamespaceCost.Panics.{is_stray}
use kubefin.Analyzer.ClusterMetrics.{ClusterBasicProperty}
use kubefin.Analyzer.ClusterMetrics.Properties.{
  ClusterCostsSummary, convert_to_multi_clusters_costs_list,
}

module _ {F : Type 0} where
  -- The summaries with the properties that are there.
  abbrev pub with_properties :
      Dict String (ClusterCostsSummary F)
      → Dict String (ClusterBasicProperty F)
      → List (ClusterCostsSummary F)
  with_properties [] properties = []
  with_properties ((id, c) ∷ summaries) properties =
      record c { basic_property = or_else c.basic_property (get id properties) }
      ∷ with_properties summaries properties

  -- The list of the costs of clusters panics if the property of one of them is missing, and otherwise has
  -- the summary of each with its property.
  pub convert-is_stray :
      (summaries : Dict String (ClusterCostsSummary F))
      (properties : Dict String (ClusterBasicProperty F))
      → convert_to_multi_clusters_costs_list summaries properties ≡ (
          if is_stray summaries properties
          then panic
          else done (with_properties summaries properties))
  unfolding convert_to_multi_clusters_costs_list
  convert-is_stray [] properties = refl
  convert-is_stray ((id, c) ∷ summaries) properties =
      ground (arith, convert-is_stray summaries properties)
