-- ===== src/Agent/PodMetrics/Usage.antt =====
-- Where the loop of `CollectPodResourceUsage` stops.
use kubefin.Base.{String, Option, none, List, [], ◌∷◌, ◌++◌, ◌≡◌, Dict, arith}
use kubefin.External.Quantity.{Quantity, Readings}
use kubefin.External.Float64.{Float64}
use kubefin.External.Objects.{Pod}
use kubefin.Agent.UsageCache.{PodUsageMetric}
use kubefin.Agent.PodMetrics.{PodMetricsCollector, collect_usages}

module _ {F Q : Type 0} ⦃float : Float64 F⦄ ⦃quantity : Quantity Q⦄ ⦃readings : Readings Q F⦄
    (marshal : Dict String String → Option String) (pod_lister : String → String → Option (Pod Q))
    (p : PodMetricsCollector) where
  -- From the first pod that the lister does not know, no usage is exported: what is exported is what
  -- the pods before it alone give, whatever stands after it.
  pub collect_usages_unknown :
      (before after : List (PodUsageMetric F)) (pod : PodUsageMetric F)
      → pod_lister pod.namespace pod.name ≡ none
      → collect_usages marshal pod_lister p (before ++ pod ∷ after)
        ≡ collect_usages marshal pod_lister p before
  unfolding collect_usages
  collect_usages_unknown [] after pod unknown = ground arith
  collect_usages_unknown (q ∷ before) after pod unknown =
      ground (arith, collect_usages_unknown before after pod unknown)
