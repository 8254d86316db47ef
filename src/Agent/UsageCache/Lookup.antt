-- ===== src/Agent/UsageCache/Lookup.antt =====
-- What the usage cache answers.
use kubefin.Base.{
  String, Bool, false, ◌==◌, string_key, ◌&&◌, Option, none, some, List, [], ◌∷◌, ◌≡◌, refl, map,
  if◌then◌else◌, arith, subst, Bool-cases, inl, inr,
}
use mathlib.Core.List.{flat_map}
use text.Mathlib.TextEquality.{eq_iff}
use kubefin.External.Quantity.{Quantity, Readings}
use kubefin.External.Float64.{Float64}
use kubefin.External.Objects.{Pod}
use kubefin.Agent.UsageCache.{
  PodUsageMetric, UsageCache, UsageItem, PodMetrics, find_usage, to_usage,
  query_workloads_usage_by_pods, query_all_pods_usage, query_all_nodes_usage, collect_pod_metrics,
  collect_node_metrics, tick,
}

module _ {F : Type 0} where
  abbrev pub is_usage_of : {Q : Type 0} → Pod Q → PodUsageMetric F → Bool
  is_usage_of pod usage = pod.namespace == usage.namespace && pod.name == usage.name

  -- All usages of a pod.
  unfoldable pub usages_of :
      {Q : Type 0} → Pod Q → List (PodUsageMetric F) → List (PodUsageMetric F)
  usages_of pod [] = []
  usages_of pod (u ∷ us) = if is_usage_of pod u then u ∷ usages_of pod us else usages_of pod us

  -- No usage of this namespace and name.
  abbrev IsAbsent : String → String → List (PodUsageMetric F) → Type 0
  IsAbsent namespace name [] = Unit {0}
  IsAbsent namespace name (u ∷ us) =
      ((namespace == u.namespace && name == u.name) ≡ false) × IsAbsent namespace name us

  -- No two usages of the same namespace and name.
  abbrev pub IsDistinct : List (PodUsageMetric F) → Type 0
  IsDistinct [] = Unit {0}
  IsDistinct (u ∷ us) = IsAbsent u.namespace u.name us × IsDistinct us

  usages_of_absent :
      {Q : Type 0} (pod : Pod Q) (us : List (PodUsageMetric F))
      → IsAbsent pod.namespace pod.name us
      → usages_of pod us ≡ []
  unfolding usages_of
  usages_of_absent pod [] h = refl
  usages_of_absent pod (u ∷ us) h = rw h.0 (usages_of_absent pod us h.1)

  IsAbsent-congr :
      (a b c d : String) (us : List (PodUsageMetric F))
      → a ≡ c
      → b ≡ d
      → IsAbsent a b us
      → IsAbsent c d us
  IsAbsent-congr a b c d us p q h =
      subst (λ x. IsAbsent x d us) p (subst (λ x. IsAbsent a x us) q h)

  find_usage-usages_of :
      {Q : Type 0} (pod : Pod Q) (us : List (PodUsageMetric F))
      → IsDistinct us
      → find_usage pod us ≡ usages_of pod us
  unfolding find_usage usages_of
  find_usage-usages_of pod [] h = refl
  find_usage-usages_of pod (u ∷ us) h = elim (Bool-cases (is_usage_of pod u)) [
    | inl same ↦
        let absent : IsAbsent pod.namespace pod.name us =
          IsAbsent-congr u.namespace u.name pod.namespace pod.name us
            (ground (arith, eq_iff pod.namespace u.namespace))
            (ground (arith, eq_iff pod.name u.name)) h.0 in
        rw (same, usages_of_absent pod us absent)
    | inr other ↦ rw other (find_usage-usages_of pod us h.1)
  ]

  -- Where the cache holds no pod twice, a query returns the usages of the given pods, in the order of
  -- the pods, and no other.
  pub query_workloads_usage_by_pods-usages_of :
      {Q : Type 0} (pods : List (Pod Q)) (c : UsageCache F)
      → IsDistinct c.pods_usage
      → query_workloads_usage_by_pods pods c ≡ flat_map (λ pod. usages_of pod c.pods_usage) pods
  unfolding query_workloads_usage_by_pods flat_map
  query_workloads_usage_by_pods-usages_of [] c h = refl
  query_workloads_usage_by_pods-usages_of (pod ∷ pods) c h =
      cc (find_usage-usages_of pod c.pods_usage h, query_workloads_usage_by_pods-usages_of pods c h)

  module _ {Q : Type 0} ⦃float : Float64 F⦄ ⦃quantity : Quantity Q⦄ ⦃readings : Readings Q F⦄ where
    abbrev pub pod_usage : PodMetrics Q → PodUsageMetric F
    pod_usage pod = record {
      name = pod.name;
      namespace = pod.namespace;
      containers_usage = map to_usage pod.containers;
    }

    -- After a tick, a query reads the reply of that tick, or what the cache held before where the
    -- reply is an error. An error for the nodes does not touch the pods, and the other way round.
    pub query_all-tick :
        (nodes : Option (List (UsageItem Q))) (pods : Option (List (PodMetrics Q)))
        (c : UsageCache F)
        → let after = tick nodes pods c in
          (query_all_nodes_usage after
            ≡ elim nodes [ none ↦ query_all_nodes_usage c | some items ↦ map to_usage items ])
          × (query_all_pods_usage after
              ≡ elim pods [ none ↦ query_all_pods_usage c | some items ↦ map pod_usage items ])
    unfolding tick collect_pod_metrics collect_node_metrics query_all_nodes_usage
        query_all_pods_usage
    query_all-tick none none c = (refl, refl)
    query_all-tick none (some pods) c = (refl, refl)
    query_all-tick (some nodes) none c = (refl, refl)
    query_all-tick (some nodes) (some pods) c = (refl, refl)
