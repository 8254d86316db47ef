-- ===== src/Analyzer/Tests/Clusters.antt =====
-- The theorems about goroutines, and about the properties and costs of clusters, at small replies.
use kubefin.Base.{
  ℕ, String, string_key, nat_key, Option, none, some, List, [], ◌∷◌, ◌≡◌, refl, get, ◌==◌,
  if◌then◌else◌, done, panic, arith, nat_eqb_iff, Bool-cases, inl, inr, subst,
}
use kubefin.Base.Int.{ℤ, pos}
use text.Mathlib.TextEquality.{eq_iff}
use kubefin.External.Float64.{whole}
use kubefin.Analyzer.Query.{Sample, Backend}
use kubefin.Analyzer.Query.Promql
use kubefin.Analyzer.Query.Selectors.{ql_cluster_activity-append}
use kubefin.Analyzer.ClusterMetrics.{ClusterBasicProperty}
use kubefin.Analyzer.ClusterMetrics.Properties.{
  parse_cluster_basic_property, parse_multi_clusters_basic_property, query_cluster_basic_property,
}
use kubefin.Analyzer.ClusterMetrics.Properties.Joins.{
  query_cluster_basic_property-replies, query_cluster_basic_property-panics,
}
use kubefin.Analyzer.ClusterMetrics.Properties.OfCluster.{get-parse_multi_clusters_basic_property}
use kubefin.Analyzer.Details.Lookup.{cell}
use kubefin.Analyzer.ResourceCost.{cluster_resource_cost, convert_cluster_resource_cost_to_list}
use kubefin.Analyzer.ResourceCost.Order.{Maps, AreUnique, AreSame, convert-AreSame}

abbrev sample_of : String → ℕ → ℕ → Sample ℕ
sample_of cluster value timestamp = record {
  metric = ("cluster_id", cluster) ∷ [];
  value = value;
  timestamp = timestamp;
}

-- The first sample of the second cluster is replaced by its last one.
get-parse_multi_clusters_basic_property_example :
    get "b" (
      parse_multi_clusters_basic_property 500
        (sample_of "a" 60 100 ∷ sample_of "b" 120 100 ∷ sample_of "b" 180 160 ∷ [])
        (sample_of "b" 1 400 ∷ sample_of "a" 1 200 ∷ [])
        [])
    ≡ some (parse_cluster_basic_property 500 (sample_of "b" 180 160) (sample_of "b" 1 400))
unfolding get
get-parse_multi_clusters_basic_property_example =
    get-parse_multi_clusters_basic_property 500 "b"
      (sample_of "a" 60 100 ∷ sample_of "b" 120 100 ∷ sample_of "b" 180 160 ∷ [])
      (sample_of "b" 1 400 ∷ sample_of "a" 1 200 ∷ [])

-- A backend that gives one reply to a query, and another to all others.
abbrev backend_of : String → Option (List (Sample ℕ)) → Option (List (Sample ℕ)) → Backend ℕ
backend_of asked reply others = record {
  query_instant = λ promql. if promql == asked then reply else others;
  query_instant_range = λ promql. none;
  query_range_with_step = λ promql start end step. none;
}

abbrev zeros : ℤ → String
zeros i = "0"

abbrev activity : Backend ℕ
activity =
    backend_of (Promql.ql_cluster_activity "a") (some (sample_of "a" 1 200 ∷ []))
      (some (sample_of "a" 60 100 ∷ []))

query_cluster_basic_property-replies_example :
    query_cluster_basic_property zeros activity 500 "a"
      (pos 0)
      (pos 9)
      (1 ∷ 0 ∷ 1 ∷ 0 ∷ 1 ∷ 0 ∷ 1 ∷ 0 ∷ [])
    ≡ done (some (parse_cluster_basic_property 500 (sample_of "a" 60 100) (sample_of "a" 1 200)))
unfolding Promql.ql_cluster_activity Promql.ql_cluster_active_time
query_cluster_basic_property-replies_example =
    query_cluster_basic_property-replies zeros activity 500 "a" (pos 0) (pos 9)
      (1 ∷ 0 ∷ 1 ∷ 0 ∷ 1 ∷ 0 ∷ 1 ∷ 0 ∷ []) (sample_of "a" 60 100) (sample_of "a" 1 200) [] [] refl
      refl

abbrev outage : Backend ℕ
outage = backend_of (Promql.ql_cluster_activity "a") (some (sample_of "a" 1 200 ∷ [])) none

query_cluster_basic_property-panics_example :
    query_cluster_basic_property zeros outage 500 "a"
      (pos 0)
      (pos 9)
      (0 ∷ 0 ∷ 1 ∷ 0 ∷ 0 ∷ 0 ∷ 1 ∷ 1 ∷ 1 ∷ [])
    ≡ panic
unfolding Promql.ql_cluster_activity Promql.ql_cluster_active_time
query_cluster_basic_property-panics_example =
    query_cluster_basic_property-panics zeros outage 500 "a" (pos 0) (pos 9) (sample_of "a" 1 200)
      [] refl refl

abbrev property : ClusterBasicProperty ℕ
property = parse_cluster_basic_property 500 (sample_of "a" 7200 100) (sample_of "a" 1 400)

-- Every query replies with the one sample of the cluster.
abbrev costs : Backend ℕ
costs = backend_of "" none (some (sample_of "a" 6 400 ∷ []))

-- The same maps, with the times and the modes in two orders.
abbrev rising : Maps ℕ
rising = record {
  total = (60, 4) ∷ (120, 5) ∷ [];
  billing = ("spot", (60, 1) ∷ []) ∷ ("ondemand", (60, 3) ∷ []) ∷ [];
  resources = ("cpu", (60, 2) ∷ []) ∷ [];
  cpu_total = [];
  cpu_usage = [];
  ram_total = [];
  ram_usage = [];
}

abbrev falling : Maps ℕ
falling = record rising {
  total = (120, 5) ∷ (60, 4) ∷ [];
  billing = ("ondemand", (60, 3) ∷ []) ∷ ("spot", (60, 1) ∷ []) ∷ [];
}

rising-AreUnique : AreUnique rising
unfolding get
rising-AreUnique = (
  (refl, (refl, tt)),
  (refl, (refl, tt), (refl, (refl, tt), tt)),
  (refl, (refl, tt), tt),
  (tt, tt),
  (tt, tt),
)

falling-AreUnique : AreUnique falling
unfolding get
falling-AreUnique = (
  (refl, (refl, tt)),
  (refl, (refl, tt), (refl, (refl, tt), tt)),
  (refl, (refl, tt), tt),
  (tt, tt),
  (tt, tt),
)

rising-AreSame : AreSame rising falling
unfolding get
rising-AreSame = (
  λ t. ground (arith, nat_eqb_iff 60 t, nat_eqb_iff 120 t),
  λ k t. elim (Bool-cases ("spot" == k)) [
    | inl same ↦
        subst (λ x. cell x t rising.billing ≡ cell x t falling.billing) ((eq_iff "spot" k).0 same)
          refl
    | inr other ↦ rw (other) refl
  ],
  λ k t. refl,
  (λ t. refl, λ t. refl),
  (λ t. refl, λ t. refl),
)

convert-AreSame_example :
    convert_cluster_resource_cost_to_list "a"
      (cluster_resource_cost rising.total rising.billing rising.resources [] [] [] [] (pos 3600))
    ≡ convert_cluster_resource_cost_to_list "a" (
        cluster_resource_cost falling.total falling.billing falling.resources [] [] [] []
          (pos 3600))
convert-AreSame_example =
    convert-AreSame "a" (pos 3600) rising falling rising-AreUnique falling-AreUnique rising-AreSame

-- Asked for one "cluster", the query selects "a" and "b".
ql_cluster_activity-append_example :
    Promql.ql_cluster_activity "a'} or kubefin_cluster_active{cluster_id='b"
    ≡ "kubefin_cluster_active{cluster_id='a'} or kubefin_cluster_active{cluster_id='b'}"
unfolding Promql.ql_cluster_activity
ql_cluster_activity-append_example = ql_cluster_activity-append "a" "b"
