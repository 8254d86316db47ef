-- ===== src/Analyzer/Tests/Metrics.antt =====
-- The theorems about the metrics of clusters at small replies.
use kubefin.Base.{ℕ, String, string_key, some, List, [], ◌∷◌, ◌≡◌, Dict, get, panic}
use kubefin.External.Float64.{whole}
use kubefin.Analyzer.Query.{Sample}
use kubefin.Analyzer.ClusterMetrics.{new_property}
use kubefin.Analyzer.ClusterMetrics.AllClusters.{by_cluster, by_cluster_last, all_clusters}
use kubefin.Analyzer.ClusterMetrics.OneCluster.{by_label, one_cluster}
use kubefin.Analyzer.ClusterMetrics.Agreement.{all_clusters-one_cluster}
use kubefin.Analyzer.ClusterMetrics.Properties.{
  ClusterCostsSummary, convert_to_multi_clusters_costs_list,
}
use kubefin.Analyzer.ClusterMetrics.Properties.Missing.{convert-is_stray}

abbrev sample : String → String → String → ℕ → Sample ℕ
sample cluster name of_name count = record {
  metric = ("cluster_id", cluster) ∷ (name, of_name) ∷ [];
  value = count;
  timestamp = 60;
}

abbrev nodes : List (Sample ℕ)
nodes =
    sample "a" "billing_mode" "ondemand" 3
    ∷ sample "b" "billing_mode" "spot" 5
    ∷ sample "a" "billing_mode" "spot" 2
    ∷ []

abbrev pods : List (Sample ℕ)
pods = sample "a" "scheduled" "true" 7 ∷ sample "a" "scheduled" "false" 1 ∷ []

abbrev cores : List (Sample ℕ)
cores = sample "a" "resource" "cpu" 16 ∷ sample "a" "resource" "memory" 64 ∷ []

-- The one pod that is not scheduled is counted among all clusters, and the seven others are not.
all_clusters-one_cluster_example :
    get "a" (
      all_clusters
        (by_cluster (λ n. n) "billing_mode" nodes [])
        (by_cluster_last (λ n. n) "scheduled" pods [])
        (by_cluster (λ n. n) "resource" cores [])
        (by_cluster (λ n. n) "resource" [] [])
        (by_cluster (λ n. n) "resource" [] [])
        (by_cluster (λ n. n) "resource" [] [])
        (by_cluster (λ n. n) "resource" [] []))
    ≡ some (
        one_cluster
          (by_label
            (λ n. n)
            "billing_mode"
            (sample "a" "billing_mode" "ondemand" 3 ∷ sample "a" "billing_mode" "spot" 2 ∷ [])
            [])
          (by_label (λ n. n) "scheduled" (sample "a" "scheduled" "false" 1 ∷ []) [])
          (by_label (λ n. n) "resource" cores [])
          (by_label (λ n. n) "resource" [] [])
          (by_label (λ n. n) "resource" [] [])
          (by_label (λ n. n) "resource" [] [])
          (by_label (λ n. n) "resource" [] []))
unfolding get
all_clusters-one_cluster_example =
    all_clusters-one_cluster (λ n. n) "a" nodes pods cores [] [] [] []

abbrev summaries : Dict String (ClusterCostsSummary ℕ)
summaries =
    (
      "a",
      record {
        basic_property = new_property;
        cluster_month_cost_current = 9;
        cluster_month_estimate_cost = 30;
        cluster_avg_daily_cost = 1;
        cluster_avg_hourly_core_cost = 0;
      },
    )
    ∷ []

-- A cluster without a property.
convert-is_stray_example : convert_to_multi_clusters_costs_list summaries [] ≡ panic
unfolding get
convert-is_stray_example = convert-is_stray summaries []
