-- ===== src/Analyzer/ClusterMetrics/Properties/OfCluster.antt =====
-- The property of one cluster among those of all clusters.
use kubefin.Base.{
  ℕ, String, false, ◌==◌, string_key, Option, none, some, List, [], ◌∷◌, ◌≡◌, ◌∙◌, refl, sym, ap,
  Dict, get, get-put, put, if◌then◌else◌, Bool-cases, inl, inr,
}
use text.Mathlib.TextEquality.{eq_iff}
use kubefin.Agent.Values
use kubefin.Analyzer.Query.{Sample}
use kubefin.Analyzer.Series.{label}
use kubefin.Analyzer.ClusterMetrics.{ClusterBasicProperty}
use kubefin.Analyzer.ClusterMetrics.Properties.{
  parse_cluster_basic_property, match_last_active, parse_multi_clusters_basic_property,
}

same_as : (x y c : String) → x ≡ c → (x == y) ≡ (y == c)
same_as x y c at = elim (Bool-cases (x == y)) [
  | inl same ↦ rw (same) (sym ((eq_iff y c).1 (sym ((eq_iff x y).0 same) ∙ at)))
  | inr apart ↦ elim (Bool-cases (y == c)) [
    | inl same ↦ ap (λ z. x == z) ((eq_iff y c).0 same ∙ sym at) ∙ ((eq_iff x x).1 refl ∙ sym same)
    | inr other ↦ apart ∙ sym other
  ]
]

module _ {F : Type 0} where
  abbrev id_of : Sample F → String
  id_of t = label Values.cluster_id_label_key t.metric

  -- The last of a cluster's samples, and `so_far` if it has none.
  abbrev pub last_sample : String → Option (Sample F) → List (Sample F) → Option (Sample F)
  last_sample c so_far [] = so_far
  last_sample c so_far (t ∷ ret) =
      last_sample c (if label Values.cluster_id_label_key t.metric == c then some t else so_far) ret

  -- A cluster has a property if it has a sample of both kinds.
  abbrev pub property_at :
      ℕ
      → Option (Sample F)
      → Option (Sample F)
      → Option (ClusterBasicProperty F)
      → Option (ClusterBasicProperty F)
  property_at now none last_active before = before
  property_at now (some a) none before = before
  property_at now (some a) (some l) before = some (parse_cluster_basic_property now a l)

  property_at_again :
      (now : ℕ) (a : Sample F) (d l : Option (Sample F)) (before : Option (ClusterBasicProperty F))
      → property_at now (some a) l (property_at now d l before) ≡ property_at now (some a) l before
  property_at_again now a none none before = refl
  property_at_again now a (some d) none before = refl
  property_at_again now a d (some l) before = refl

  get-match_last_active :
      (now : ℕ) (c : String) (a : Sample F) (ret : List (Sample F)) (so_far : Option (Sample F))
      (info : Dict String (ClusterBasicProperty F)) (before : Option (ClusterBasicProperty F))
      → id_of a ≡ c
      → get c info ≡ property_at now (some a) so_far before
      → get c (match_last_active now a ret info)
        ≡ property_at now (some a) (last_sample c so_far ret) before
  unfolding match_last_active
  get-match_last_active now c a [] so_far info before at known = known
  get-match_last_active now c a (l ∷ ret) so_far info before at known =
      let info' = put (id_of a) (parse_cluster_basic_property now a l) info in
      elim (Bool-cases (id_of l == c)) [
        | inl same ↦
            rw (same_as (id_of a) (id_of l) c at, same)
              (get-match_last_active now c a ret (some l) info' before at (
                rw
                  (
                    get-put (id_of a) c (parse_cluster_basic_property now a l) info,
                    (eq_iff (id_of a) c).1 at,
                  )
                  refl))
        | inr other ↦
            rw (same_as (id_of a) (id_of l) c at, other)
              (get-match_last_active now c a ret so_far info before at known)
      ]

  other_match_last_active :
      (now : ℕ) (c : String) (a : Sample F) (ret : List (Sample F))
      (info : Dict String (ClusterBasicProperty F))
      → (id_of a == c) ≡ false
      → get c (match_last_active now a ret info) ≡ get c info
  unfolding match_last_active
  other_match_last_active now c a [] info other = refl
  other_match_last_active now c a (l ∷ ret) info other =
      let info' = put (id_of a) (parse_cluster_basic_property now a l) info in
      elim (Bool-cases (id_of a == id_of l)) [
        | inl same ↦
            rw
              (
                same,
                other_match_last_active now c a ret info' other,
                get-put (id_of a) c (parse_cluster_basic_property now a l) info,
                other,
              )
              refl
        | inr apart ↦ rw (apart) (other_match_last_active now c a ret info other)
      ]

  get-parse_from :
      (now : ℕ) (c : String) (active_time last_active : List (Sample F))
      (so_far : Option (Sample F)) (info : Dict String (ClusterBasicProperty F))
      (before : Option (ClusterBasicProperty F))
      → get c info ≡ property_at now so_far (last_sample c none last_active) before
      → get c (parse_multi_clusters_basic_property now active_time last_active info)
        ≡ property_at now (last_sample c so_far active_time) (last_sample c none last_active) before
  unfolding parse_multi_clusters_basic_property
  get-parse_from now c [] last_active so_far info before known = known
  get-parse_from now c (a ∷ active_time) last_active so_far info before known =
      elim (Bool-cases (id_of a == c)) [
        | inl same ↦ rw (same) (
            get-parse_from now c active_time last_active (some a) _ before (
              (get-match_last_active now c a last_active none info (get c info)
                  ((eq_iff (id_of a) c).0 same) refl
                ∙ ap (property_at now (some a) (last_sample c none last_active)) known)
              ∙ property_at_again now a so_far (last_sample c none last_active) before))
        | inr other ↦ rw (other) (
            get-parse_from now c active_time last_active so_far _ before
              (other_match_last_active now c a last_active info other ∙ known))
      ]

  -- For each cluster and whatever the samples are, the property is the one of the cluster's last sample of
  -- each kind; there is none if it lacks a sample of one kind.
  pub get-parse_multi_clusters_basic_property :
      (now : ℕ) (c : String) (active_time last_active : List (Sample F))
      → get c (parse_multi_clusters_basic_property now active_time last_active [])
        ≡ property_at now (last_sample c none active_time) (last_sample c none last_active) none
  unfolding get
  get-parse_multi_clusters_basic_property now c active_time last_active =
      get-parse_from now c active_time last_active none [] none refl
