-- ===== src/Analyzer/ClusterCost/Lookup.antt =====
-- What the maps of the costs of clusters hold.
use kubefin.Base.{
  ◌≤◌, String, ◌==◌, string_key, Option, none, some, List, [], ◌∷◌, ◌≡◌, refl, Dict, get, put,
  get-put, or_else, IsMap, IsMap-put, arith, Bool-cases, inl, inr, subst, length,
}
use text.Mathlib.TextEquality.{eq_iff}
use kubefin.External.Float64.{Float64, nought}
use kubefin.Agent.Values
use kubefin.Analyzer.Query.{Sample}
use kubefin.Analyzer.Series.{label}
use kubefin.Analyzer.ClusterMetrics.{ClusterBasicProperty}
use kubefin.Analyzer.ClusterMetrics.OneCluster.{by_label}
use kubefin.Analyzer.ClusterMetrics.Agreement.Samples.{of_cluster}
use kubefin.Analyzer.ClusterMetrics.Properties.{ClusterCostsSummary}
use kubefin.Analyzer.ClusterCost.{active_times, costs_summary, costs_summaries, first_value}

module _ {A B : Type 0} (f : String → A → B) where
  -- The loop that writes a value for each entry of a map.
  abbrev written : Dict String A → Dict String B → Dict String B
  written [] m = m
  written ((k, v) ∷ rows) m = written rows (put k (f k v) m)

  abbrev entry : String → Option A → Option B → Option B
  entry c none before = before
  entry c (some v) before = some (f c v)

  get-written :
      (c : String) (rows : Dict String A) (m : Dict String B)
      → IsMap rows
      → get c (written rows m) ≡ entry c (get c rows) (get c m)
  unfolding get
  get-written c [] m h = refl
  get-written c ((k, v) ∷ rows) m h = elim (Bool-cases (k == c)) [
    | inl same ↦
        let at = (eq_iff k c).0 same in
        let fresh : get c rows ≡ none = subst (λ x. get x rows ≡ none) at h.0 in
        rw (get-written c rows (put k (f k v) m) h.1, fresh, get-put k c (f k v) m, same, at) refl
    | inr other ↦ rw (get-written c rows (put k (f k v) m) h.1, get-put k c (f k v) m, other) refl
  ]

  IsMap-written : (rows : Dict String A) (m : Dict String B) → IsMap m → IsMap (written rows m)
  IsMap-written [] m h = h
  IsMap-written ((k, v) ∷ rows) m h = IsMap-written rows _ (IsMap-put _ _ m h)

active_times-written :
    {F : Type 0} (properties : Dict String (ClusterBasicProperty F)) (m : Dict String F)
    → active_times properties m
      ≡ written (λ id p. ClusterBasicProperty.cluster_active_time p) properties m
unfolding active_times
active_times-written [] m = refl
active_times-written ((id, p) ∷ properties) m = active_times-written properties _

module _ {F : Type 0} ⦃float : Float64 F⦄ where
  -- The value of the last sample.
  abbrev last_value : F → List (Sample F) → F
  last_value d [] = d
  last_value d (t ∷ l) = last_value t.value l

  get-by_label :
      (c : String) (ret : List (Sample F)) (m : Dict String F)
      → or_else nought (get c (by_label (λ v. v) Values.cluster_id_label_key ret m))
        ≡ last_value (or_else nought (get c m)) (of_cluster c ret)
  unfolding by_label
  get-by_label c [] m = refl
  get-by_label c (t ∷ ret) m =
      let id = label Values.cluster_id_label_key t.metric in
      elim (Bool-cases (id == c)) [
        | inl same ↦ rw (get-by_label c ret (put id t.value m), get-put id c t.value m, same) refl
        | inr other ↦ rw (get-by_label c ret (put id t.value m), get-put id c t.value m, other) refl
      ]

  last_value-first_value :
      (l : List (Sample F)) → length l ≤ 1 → last_value nought l ≡ first_value l
  unfolding first_value
  last_value-first_value [] h = refl
  last_value-first_value (t ∷ []) h = refl
  last_value-first_value (t ∷ u ∷ l) h = absurd (omega arith)

  costs_summaries-written :
      (active month cpu count : Dict String F) (m : Dict String (ClusterCostsSummary F))
      → costs_summaries active month cpu count m
        ≡ written
            (λ id active_time.
              costs_summary
                (or_else nought (get id month))
                active_time
                (or_else nought (get id cpu))
                (or_else nought (get id count)))
            active
            m
  unfolding costs_summaries
  costs_summaries-written [] month cpu count m = refl
  costs_summaries-written ((id, active_time) ∷ active) month cpu count m =
      costs_summaries-written active month cpu count _

  pub get-by_label_first :
      (c : String) (ret : List (Sample F))
      → length (of_cluster c ret) ≤ 1
      → or_else nought (get c (by_label (λ v. v) Values.cluster_id_label_key ret []))
        ≡ first_value (of_cluster c ret)
  unfolding get
  get-by_label_first c ret h =
      rw (get-by_label c ret []) (last_value-first_value (of_cluster c ret) h)

  pub get-costs_summaries :
      (c : String) (properties : Dict String (ClusterBasicProperty F)) (p : ClusterBasicProperty F)
      (month cpu count : Dict String F)
      → IsMap properties
      → get c properties ≡ some p
      → get c (costs_summaries (active_times properties []) month cpu count [])
        ≡ some (
            costs_summary
              (or_else nought (get c month))
              p.cluster_active_time
              (or_else nought (get c cpu))
              (or_else nought (get c count)))
  get-costs_summaries c properties p month cpu count h known =
      let times = written (λ id q. ClusterBasicProperty.cluster_active_time q) properties [] in
      rw
        (
          active_times-written properties [],
          costs_summaries-written times month cpu count [],
          get-written
              (λ id active_time.
                costs_summary (or_else nought (get id month)) active_time
                  (or_else nought (get id cpu)) (or_else nought (get id count)))
              c times [] (IsMap-written _ properties [] tt),
          get-written (λ id q. ClusterBasicProperty.cluster_active_time q) c properties [] h,
          known,
        )
        refl
