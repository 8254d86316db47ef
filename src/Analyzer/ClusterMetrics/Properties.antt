-- ===== src/Analyzer/ClusterMetrics/Properties.antt =====
-- The properties of clusters (pkg/analyzer/server/implementation/cluster_metrics.go). `now` is
-- `time.Now().Unix()`; a time that is later than `now` is less than the threshold away, as 0 is.
pub mod Missing
pub mod Joins
pub mod OfCluster
use kubefin.Base.{
  or_else, ℕ, ◌-◌, String, ◌==◌, string_key, Option, none, some, List, [], ◌∷◌, Dict, get, put, ltb,
  if◌then◌else◌, Outcome, done, panic, ◌>>=◌,
}
use kubefin.Base.Int.{ℤ, ◌-ℤ◌}
use kubefin.External.Float64.{Float64, nought}
use kubefin.Agent.Values
use kubefin.Analyzer.Goroutines.{failure_of}
use kubefin.Analyzer.Goroutines.Checked.{Caller, join}
use kubefin.Analyzer.Query.{Sample, Backend}
use kubefin.Analyzer.Query.Promql
use kubefin.Analyzer.Series.{label}
use kubefin.Analyzer.ClusterMetrics.{ClusterBasicProperty}

pub record ClusterCostsSummary (F : Type 0) : Type 0 where
  pub basic_property : ClusterBasicProperty F
  pub cluster_month_cost_current : F
  pub cluster_month_estimate_cost : F
  pub cluster_avg_daily_cost : F
  pub cluster_avg_hourly_core_cost : F

abbrev pub lost_connection_timeout_threshold : ℕ
lost_connection_timeout_threshold = 180

module _ {F : Type 0} where
  unfoldable pub parse_cluster_basic_property : ℕ → Sample F → Sample F → ClusterBasicProperty F
  parse_cluster_basic_property now active_time last_active = record {
    cluster_id = label Values.cluster_id_label_key active_time.metric;
    cluster_name = label Values.cluster_name_label_key active_time.metric;
    cloud_provider = label Values.cloud_provider_label_key active_time.metric;
    cluster_region = label Values.region_label_key active_time.metric;
    cluster_active_time = active_time.value;
    last_active_time = last_active.timestamp;
    cluster_connection_sate =
        if ltb lost_connection_timeout_threshold (now - last_active.timestamp)
        then "connect_failed"
        else "running";
    connection_time = 0;
  }

  -- The inner loop, over the times of the last activity.
  unfoldable pub match_last_active :
      ℕ
      → Sample F
      → List (Sample F)
      → Dict String (ClusterBasicProperty F)
      → Dict String (ClusterBasicProperty F)
  match_last_active now active_time [] info = info
  match_last_active now active_time (last_active ∷ rest) info =
      let cluster_idx = label Values.cluster_id_label_key active_time.metric in
      let cluster_idy = label Values.cluster_id_label_key last_active.metric in
      match_last_active now active_time rest (
        if cluster_idx == cluster_idy
        then put cluster_idx (parse_cluster_basic_property now active_time last_active) info
        else info)

  unfoldable pub parse_multi_clusters_basic_property :
      ℕ
      → List (Sample F)
      → List (Sample F)
      → Dict String (ClusterBasicProperty F)
      → Dict String (ClusterBasicProperty F)
  parse_multi_clusters_basic_property now [] last_active info = info
  parse_multi_clusters_basic_property now (active_time ∷ rest) last_active info =
      parse_multi_clusters_basic_property now rest last_active
        (match_last_active now active_time last_active info)

  -- A nil property is dereferenced.
  unfoldable pub convert_to_multi_clusters_costs_list :
      Dict String (ClusterCostsSummary F)
      → Dict String (ClusterBasicProperty F)
      → Outcome (List (ClusterCostsSummary F))
  convert_to_multi_clusters_costs_list [] clusters_property = done []
  convert_to_multi_clusters_costs_list ((cluster_id, cluster) ∷ clusters_summary)
        clusters_property =
      elim (get cluster_id clusters_property) [
        | none ↦ panic
        | some property ↦ (do
          rest ← convert_to_multi_clusters_costs_list clusters_summary clusters_property
          done (record cluster { basic_property = property } ∷ rest))
      ]

  -- What a reply without samples gives for one cluster, `if len(samples) == 0 { return err }`; the value of
  -- a call that failed is nil.
  abbrev pub no_such_cluster : Option (List (Sample F)) → Option (Unit {0})
  no_such_cluster none = some tt
  no_such_cluster (some []) = some tt
  no_such_cluster (some (s ∷ samples)) = none

  -- The two goroutines, from the replies of their calls.
  unfoldable pub all_clusters_callers :
      Option (List (Sample F)) → Option (List (Sample F)) → List (Caller (Unit {0}))
  all_clusters_callers active_time last_active =
      Caller.waiting (failure_of active_time) none
      ∷ Caller.waiting (failure_of last_active) none
      ∷ []

  unfoldable pub cluster_callers :
      Option (List (Sample F)) → Option (List (Sample F)) → List (Caller (Unit {0}))
  cluster_callers active_time last_active =
      Caller.waiting (failure_of active_time) (no_such_cluster active_time)
      ∷ Caller.waiting (failure_of last_active) (no_such_cluster last_active)
      ∷ []

  -- `ParseClusterBasicProperty(clusterActiveTime[0], clusterLastActiveInfo[0])`
  unfoldable pub first_property :
      ℕ → List (Sample F) → List (Sample F) → Outcome (ClusterBasicProperty F)
  first_property now [] last_active = panic
  first_property now (a ∷ active_time) [] = panic
  first_property now (a ∷ active_time) (l ∷ last_active) =
      done (parse_cluster_basic_property now a l)

  module _ (itoa : ℤ → String) (backend : Backend F) (now : ℕ) where
    open backend use {query_instant}

    unfoldable pub query_all_clusters_basic_property :
        ℤ → ℤ → List ℕ → Option (Dict String (ClusterBasicProperty F))
    query_all_clusters_basic_property start end schedule =
        let active_time = query_instant (Promql.ql_all_clusters_active_time itoa (end -ℤ start)) in
        let last_active = query_instant Promql.ql_all_clusters_activity in
        if join schedule (all_clusters_callers active_time last_active)
        then none
        else some (
            parse_multi_clusters_basic_property now (or_else [] active_time)
              (or_else [] last_active) [])

    unfoldable pub query_cluster_basic_property :
        String → ℤ → ℤ → List ℕ → Outcome (Option (ClusterBasicProperty F))
    query_cluster_basic_property cluster_id start end schedule =
        let active_time =
          query_instant (Promql.ql_cluster_active_time itoa cluster_id (end -ℤ start)) in
        let last_active = query_instant (Promql.ql_cluster_activity cluster_id) in
        if join schedule (cluster_callers active_time last_active) then done none else (do
          property ← first_property now (or_else [] active_time) (or_else [] last_active)
          done (some property))
