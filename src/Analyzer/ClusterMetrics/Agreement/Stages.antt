-- ===== src/Analyzer/ClusterMetrics/Agreement/Stages.antt =====
-- The summary of one cluster, stage by stage, among all clusters.
use kubefin.Base.{
  ℕ, String, Bool, true, false, ◌||◌, string_key, Option, none, some, [], ◌∷◌, ◌≡◌, ◌∙◌, refl, sym,
  ap, Dict, get, put, get-put, or_else, is_some, IsMap, if◌then◌else◌, arith,
}
use text.Mathlib.TextEquality.{eq_iff}
use kubefin.External.Float64.{Float64, nought}
use kubefin.Analyzer.ClusterMetrics.{
  ClusterResourcesSummary, count_nodes, count_pods, sum_resources, new_summary,
}
use kubefin.Analyzer.ClusterMetrics.AllClusters.{
  Clusters, update_all, parse_all_clusters_nodes_number, parse_all_clusters_pods_number,
  parse_all_clusters_resource_total, parse_all_clusters_resource_usage,
  parse_all_clusters_resource_request, parse_all_clusters_resource_available,
  parse_all_clusters_resource_system_taken, all_clusters,
}
use kubefin.Analyzer.ClusterMetrics.OneCluster.{
  parse_cluster_nodes_number, parse_cluster_pods_number, parse_cluster_resource_total,
  parse_cluster_resource_usage, parse_cluster_resource_request, parse_cluster_resource_available,
  parse_cluster_resource_system_taken, one_cluster,
}
use kubefin.Analyzer.ClusterMetrics.Agreement.Unset.{
  unset_total, unset_usage, unset_request, unset_available, unset_system_taken,
}

module _ {F : Type 0} ⦃float : Float64 F⦄ where
  -- A summary after a row was written over it, if there is one.
  abbrev updated :
      {A : Type 0}
      → (Dict String A → ClusterResourcesSummary F → ClusterResourcesSummary F)
      → Option (Dict String A)
      → Option (ClusterResourcesSummary F)
      → Option (ClusterResourcesSummary F)
  updated set none old = old
  updated set (some v) old = some (set v (or_else new_summary old))

  get-update_all :
      {A : Type 0} (set : Dict String A → ClusterResourcesSummary F → ClusterResourcesSummary F)
      (c : String) (rows : Clusters A) (data_of : Dict String (ClusterResourcesSummary F))
      → IsMap rows
      → get c (update_all set rows data_of) ≡ updated set (get c rows) (get c data_of)
  unfolding update_all get
  get-update_all set c [] data_of h = refl
  get-update_all set c ((id, v) ∷ rows) data_of h =
      let d = set v (or_else new_summary (get id data_of)) in
      ground (
        arith,
        eq_iff id c,
        get-put id c d data_of,
        get-update_all set c rows (put id d data_of) h.1,
      )

  -- A summary that is there by the test, and is new where it is not there.
  abbrev IsStage : Bool → ClusterResourcesSummary F → Option (ClusterResourcesSummary F) → Type 0
  IsStage test d o = (o ≡ (if test then some d else none)) × (test ≡ false → d ≡ new_summary)

  IsStage-updated :
      {A : Type 0}
      (set parse : Dict String A → ClusterResourcesSummary F → ClusterResourcesSummary F)
      (test : Bool) (d : ClusterResourcesSummary F) (o : Option (ClusterResourcesSummary F))
      (row : Option (Dict String A))
      → ((v : Dict String A) → set v d ≡ parse v d)
      → parse [] d ≡ d
      → IsStage test d o
      → IsStage (test || is_some row) (parse (or_else [] row) d) (updated set row o)
  IsStage-updated set parse true d o none same keeps h =
      (rw (keeps, h.0) refl, λ never. absurd (ground arith))
  IsStage-updated set parse true d o (some v) same keeps h =
      (rw (h.0, same v) refl, λ never. absurd (ground arith))
  IsStage-updated set parse false d o none same keeps h = (h.0, λ held. keeps ∙ h.1 refl)
  IsStage-updated set parse false d o (some v) same keeps h = (
    rw (h.0) (ap (λ x. some (set v x)) (sym (h.1 refl)) ∙ ap (λ x. some x) (same v)),
    λ never. absurd (ground arith),
  )

  IsStage-update_all :
      {A : Type 0}
      (set parse : Dict String A → ClusterResourcesSummary F → ClusterResourcesSummary F)
      (c : String) (test : Bool) (d : ClusterResourcesSummary F) (rows : Clusters A)
      (data_of : Dict String (ClusterResourcesSummary F))
      → IsMap rows
      → ((v : Dict String A) → set v d ≡ parse v d)
      → parse [] d ≡ d
      → IsStage test d (get c data_of)
      → IsStage
          (test || is_some (get c rows))
          (parse (or_else [] (get c rows)) d)
          (get c (update_all set rows data_of))
  IsStage-update_all set parse c test d rows data_of unique same keeps h =
      rw (get-update_all set c rows data_of unique)
        (IsStage-updated set parse test d (get c data_of) (get c rows) same keeps h)

  IsStage-nodes :
      (c : String) (nodes : Clusters ℕ)
      → IsMap nodes
      → IsStage
          (is_some (get c nodes))
          (parse_cluster_nodes_number (or_else [] (get c nodes)) new_summary)
          (get c (parse_all_clusters_nodes_number nodes []))
  unfolding parse_all_clusters_nodes_number parse_cluster_nodes_number count_nodes get
  IsStage-nodes c nodes unique =
      IsStage-update_all _ parse_cluster_nodes_number c false new_summary nodes [] unique
        (λ v. refl) refl (refl, λ h. refl)

  IsStage-pods :
      (c : String) (test : Bool) (nodes : Dict String ℕ) (rows : Clusters ℕ)
      (data_of : Dict String (ClusterResourcesSummary F))
      → IsMap rows
      → IsStage test (parse_cluster_nodes_number nodes new_summary) (get c data_of)
      → IsStage
          (test || is_some (get c rows))
          (parse_cluster_pods_number
            (or_else [] (get c rows))
            (parse_cluster_nodes_number nodes new_summary))
          (get c (parse_all_clusters_pods_number rows data_of))
  unfolding parse_all_clusters_pods_number parse_cluster_pods_number parse_cluster_nodes_number
      count_pods
  IsStage-pods c test nodes rows data_of unique =
      IsStage-update_all _ parse_cluster_pods_number c test _ rows data_of unique (λ v. refl) refl

  IsStage-total :
      (c : String) (test : Bool) (d : ClusterResourcesSummary F) (rows : Clusters F)
      (data_of : Dict String (ClusterResourcesSummary F))
      → IsMap rows
      → (d.cpu_core_total ≡ nought) × (d.ram_gib_total ≡ nought)
      → IsStage test d (get c data_of)
      → IsStage
          (test || is_some (get c rows))
          (parse_cluster_resource_total (or_else [] (get c rows)) d)
          (get c (parse_all_clusters_resource_total rows data_of))
  unfolding parse_all_clusters_resource_total parse_cluster_resource_total sum_resources
  IsStage-total c test d rows data_of unique unset =
      IsStage-update_all _ parse_cluster_resource_total c test d rows data_of unique
        (λ v. rw (unset.0, unset.1) refl) refl

  IsStage-usage :
      (c : String) (test : Bool) (d : ClusterResourcesSummary F) (rows : Clusters F)
      (data_of : Dict String (ClusterResourcesSummary F))
      → IsMap rows
      → (d.cpu_core_usage ≡ nought) × (d.ram_gib_usage ≡ nought)
      → IsStage test d (get c data_of)
      → IsStage
          (test || is_some (get c rows))
          (parse_cluster_resource_usage (or_else [] (get c rows)) d)
          (get c (parse_all_clusters_resource_usage rows data_of))
  unfolding parse_all_clusters_resource_usage parse_cluster_resource_usage sum_resources
  IsStage-usage c test d rows data_of unique unset =
      IsStage-update_all _ parse_cluster_resource_usage c test d rows data_of unique
        (λ v. rw (unset.0, unset.1) refl) refl

  IsStage-request :
      (c : String) (test : Bool) (d : ClusterResourcesSummary F) (rows : Clusters F)
      (data_of : Dict String (ClusterResourcesSummary F))
      → IsMap rows
      → (d.cpu_core_request ≡ nought) × (d.ram_gib_request ≡ nought)
      → IsStage test d (get c data_of)
      → IsStage
          (test || is_some (get c rows))
          (parse_cluster_resource_request (or_else [] (get c rows)) d)
          (get c (parse_all_clusters_resource_request rows data_of))
  unfolding parse_all_clusters_resource_request parse_cluster_resource_request sum_resources
  IsStage-request c test d rows data_of unique unset =
      IsStage-update_all _ parse_cluster_resource_request c test d rows data_of unique
        (λ v. rw (unset.0, unset.1) refl) refl

  IsStage-available :
      (c : String) (test : Bool) (d : ClusterResourcesSummary F) (rows : Clusters F)
      (data_of : Dict String (ClusterResourcesSummary F))
      → IsMap rows
      → (d.cpu_core_available ≡ nought) × (d.ram_gib_available ≡ nought)
      → IsStage test d (get c data_of)
      → IsStage
          (test || is_some (get c rows))
          (parse_cluster_resource_available (or_else [] (get c rows)) d)
          (get c (parse_all_clusters_resource_available rows data_of))
  unfolding parse_all_clusters_resource_available parse_cluster_resource_available sum_resources
  IsStage-available c test d rows data_of unique unset =
      IsStage-update_all _ parse_cluster_resource_available c test d rows data_of unique
        (λ v. rw (unset.0, unset.1) refl) refl

  IsStage-system_taken :
      (c : String) (test : Bool) (d : ClusterResourcesSummary F) (rows : Clusters F)
      (data_of : Dict String (ClusterResourcesSummary F))
      → IsMap rows
      → (d.cpu_core_system_taken ≡ nought) × (d.ram_gib_system_taken ≡ nought)
      → IsStage test d (get c data_of)
      → IsStage
          (test || is_some (get c rows))
          (parse_cluster_resource_system_taken (or_else [] (get c rows)) d)
          (get c (parse_all_clusters_resource_system_taken rows data_of))
  unfolding parse_all_clusters_resource_system_taken parse_cluster_resource_system_taken
      sum_resources
  IsStage-system_taken c test d rows data_of unique unset =
      IsStage-update_all _ parse_cluster_resource_system_taken c test d rows data_of unique
        (λ v. rw (unset.0, unset.1) refl) refl

  pub all_clusters-one_cluster_of :
      (c : String) (nodes pods : Clusters ℕ) (total usage request available taken : Clusters F)
      → IsMap nodes × IsMap pods
      → IsMap total × IsMap usage × IsMap request × IsMap available × IsMap taken
      → get c (all_clusters nodes pods total usage request available taken) ≡ (
          if (((((is_some (get c nodes) || is_some (get c pods)) || is_some (get c total))
                  || is_some (get c usage))
                || is_some (get c request))
              || is_some (get c available))
            || is_some (get c taken)
          then some (
              one_cluster
                (or_else [] (get c nodes))
                (or_else [] (get c pods))
                (or_else [] (get c total))
                (or_else [] (get c usage))
                (or_else [] (get c request))
                (or_else [] (get c available))
                (or_else [] (get c taken)))
          else none)
  unfolding all_clusters one_cluster
  all_clusters-one_cluster_of c nodes pods total usage request available taken hc hr =
      let s0 = IsStage-nodes c nodes hc.0 in
      let s1 = IsStage-pods c _ (or_else [] (get c nodes)) pods _ hc.1 s0 in
      let s2 = IsStage-total c _ _ total _ hr.0 (unset_total _ _) s1 in
      let s3 = IsStage-usage c _ _ usage _ hr.1 (unset_usage _ _ _) s2 in
      let s4 = IsStage-request c _ _ request _ hr.2 (unset_request _ _ _ _) s3 in
      let s5 = IsStage-available c _ _ available _ hr.3 (unset_available _ _ _ _ _) s4 in
      let s6 = IsStage-system_taken c _ _ taken _ hr.4 (unset_system_taken _ _ _ _ _ _) s5 in s6.0
