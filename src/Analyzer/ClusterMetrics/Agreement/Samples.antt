-- ===== src/Analyzer/ClusterMetrics/Agreement/Samples.antt =====
-- The samples of one cluster among those of all clusters.
use kubefin.Base.{
  String, Bool, true, false, ◌==◌, string_key, none, some, List, [], ◌∷◌, ◌≡◌, refl, sym, Dict, get,
  put, get-put, or_else, is_some, IsMap, IsMap-put, if◌then◌else◌, arith, Bool-cases, inl, inr,
}
use text.Mathlib.TextEquality.{eq_iff}
use kubefin.Agent.Values
use kubefin.Analyzer.Query.{Sample}
use kubefin.Analyzer.Series.{label}
use kubefin.Analyzer.ClusterMetrics.AllClusters.{Clusters, by_cluster, by_cluster_last}
use kubefin.Analyzer.ClusterMetrics.OneCluster.{by_label}

-- The samples of one cluster.
abbrev pub of_cluster : {F : Type 0} → String → List (Sample F) → List (Sample F)
of_cluster c [] = []
of_cluster c (t ∷ ret) =
    if label Values.cluster_id_label_key t.metric == c
    then t ∷ of_cluster c ret
    else of_cluster c ret

-- The last of the samples alone.
abbrev pub last_only : {A : Type 0} → List A → List A
last_only [] = []
last_only (t ∷ []) = t ∷ []
last_only (t ∷ u ∷ ret) = last_only (u ∷ ret)

abbrev pub is_nonempty : {A : Type 0} → List A → Bool
is_nonempty [] = false
is_nonempty (t ∷ ret) = true

by_nonempty :
    {A B : Type 0} (l : List A) (f : List A → B)
    → (if is_nonempty l then some (f l) else some (f [])) ≡ some (f l)
by_nonempty [] f = refl
by_nonempty (t ∷ l) f = refl

by_last :
    {A B : Type 0} (t : A) (l : List A) (f : List A → B)
    → (if is_nonempty l then some (f (last_only l)) else some (f (t ∷ [])))
      ≡ some (f (last_only (t ∷ l)))
by_last t [] f = refl
by_last t (u ∷ l) f = refl

if_value :
    {A B : Type 0} (l : List A) (b : B)
    → is_some (if is_nonempty l then some b else none) ≡ is_nonempty l
if_value [] b = refl
if_value (t ∷ l) b = refl

if_read :
    {A B : Type 0} (l : List A) (b : List B)
    → (is_nonempty l ≡ false → b ≡ [])
    → or_else [] (if is_nonempty l then some b else none) ≡ b
if_read [] b h = sym (h refl)
if_read (t ∷ l) b h = refl

module _ {F A : Type 0} (value_of : F → A) (name : String) where
  pub IsMap-by_cluster :
      (ret : List (Sample F)) (m : Clusters A) → IsMap m → IsMap (by_cluster value_of name ret m)
  unfolding by_cluster
  IsMap-by_cluster [] m h = h
  IsMap-by_cluster (t ∷ ret) m h = IsMap-by_cluster ret _ (IsMap-put _ _ m h)

  pub IsMap-by_cluster_last :
      (ret : List (Sample F)) (m : Clusters A)
      → IsMap m
      → IsMap (by_cluster_last value_of name ret m)
  unfolding by_cluster_last
  IsMap-by_cluster_last [] m h = h
  IsMap-by_cluster_last (t ∷ ret) m h = IsMap-by_cluster_last ret _ (IsMap-put _ _ m h)

  get-by_cluster :
      (c : String) (ret : List (Sample F)) (m : Clusters A)
      → get c (by_cluster value_of name ret m) ≡ (
          if is_nonempty (of_cluster c ret)
          then some (by_label value_of name (of_cluster c ret) (or_else [] (get c m)))
          else get c m)
  unfolding by_cluster by_label
  get-by_cluster c [] m = refl
  get-by_cluster c (t ∷ ret) m =
      let id = label Values.cluster_id_label_key t.metric in
      let row = put (label name t.metric) (value_of t.value) (or_else [] (get id m)) in
      let samples = of_cluster c ret in
      elim (Bool-cases (id == c)) [
        | inl same ↦
            let at = (eq_iff id c).0 same in
            rw (get-by_cluster c ret (put id row m), get-put id c row m, same, at)
              (by_nonempty samples (λ l.
                by_label value_of name l
                  (put (label name t.metric) (value_of t.value) (or_else [] (get c m)))))
        | inr other ↦ rw (get-by_cluster c ret (put id row m), get-put id c row m, other) refl
      ]

  get-by_cluster_last :
      (c : String) (ret : List (Sample F)) (m : Clusters A)
      → get c (by_cluster_last value_of name ret m) ≡ (
          if is_nonempty (of_cluster c ret)
          then some (by_label value_of name (last_only (of_cluster c ret)) [])
          else get c m)
  unfolding by_cluster_last by_label put
  get-by_cluster_last c [] m = refl
  get-by_cluster_last c (t ∷ ret) m =
      let id = label Values.cluster_id_label_key t.metric in
      let row : Dict String A = (label name t.metric, value_of t.value) ∷ [] in
      elim (Bool-cases (id == c)) [
        | inl same ↦
            rw (get-by_cluster_last c ret (put id row m), get-put id c row m, same)
              (by_last t (of_cluster c ret) (λ l. by_label value_of name l []))
        | inr other ↦ rw (get-by_cluster_last c ret (put id row m), get-put id c row m, other) refl
      ]

  read_nothing : (l : List (Sample F)) → is_nonempty l ≡ false → by_label value_of name l [] ≡ []
  unfolding by_label
  read_nothing [] h = refl
  read_nothing (t ∷ l) h = absurd (ground arith)

  read_no_last :
      (l : List (Sample F)) → is_nonempty l ≡ false → by_label value_of name (last_only l) [] ≡ []
  unfolding by_label
  read_no_last [] h = refl
  read_no_last (t ∷ l) h = absurd (ground arith)

  pub or_else-by_cluster :
      (c : String) (ret : List (Sample F))
      → or_else [] (get c (by_cluster value_of name ret []))
        ≡ by_label value_of name (of_cluster c ret) []
  unfolding get
  or_else-by_cluster c ret =
      rw (get-by_cluster c ret []) (if_read (of_cluster c ret) _ (read_nothing (of_cluster c ret)))

  pub is_some-by_cluster :
      (c : String) (ret : List (Sample F))
      → is_some (get c (by_cluster value_of name ret [])) ≡ is_nonempty (of_cluster c ret)
  unfolding get
  is_some-by_cluster c ret = rw (get-by_cluster c ret []) (if_value (of_cluster c ret) _)

  pub or_else-by_cluster_last :
      (c : String) (ret : List (Sample F))
      → or_else [] (get c (by_cluster_last value_of name ret []))
        ≡ by_label value_of name (last_only (of_cluster c ret)) []
  unfolding get
  or_else-by_cluster_last c ret =
      rw (get-by_cluster_last c ret [])
        (if_read (of_cluster c ret) _ (read_no_last (of_cluster c ret)))

  pub is_some-by_cluster_last :
      (c : String) (ret : List (Sample F))
      → is_some (get c (by_cluster_last value_of name ret [])) ≡ is_nonempty (of_cluster c ret)
  unfolding get
  is_some-by_cluster_last c ret = rw (get-by_cluster_last c ret []) (if_value (of_cluster c ret) _)
