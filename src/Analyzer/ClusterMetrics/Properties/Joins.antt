-- ===== src/Analyzer/ClusterMetrics/Properties/Joins.antt =====
-- What the joins of the queries of basic properties return.
use kubefin.Base.{ℕ, String, none, some, List, [], ◌∷◌, ◌≡◌, refl, done, panic}
use kubefin.Base.Int.{ℤ, ◌-ℤ◌}
use kubefin.Analyzer.Query.{Sample, Backend}
use kubefin.Analyzer.Query.Promql
use kubefin.Analyzer.Goroutines.{reports}
use kubefin.Analyzer.Goroutines.Checked.{Caller, advance, turn, interleave, join}
use kubefin.Analyzer.Goroutines.Checked.Schedules.{join-AreFine}
use kubefin.Analyzer.ClusterMetrics.Properties.{
  parse_cluster_basic_property, cluster_callers, first_property, query_cluster_basic_property,
}

module _ {F : Type 0} (itoa : ℤ → String) (backend : Backend F) (now : ℕ) (cluster_id : String)
    (start end : ℤ) where
  open backend use {query_instant}

  -- Where both queries reply with samples, every schedule gives the property of the first two samples.
  pub query_cluster_basic_property-replies :
      (schedule : List ℕ) (a l : Sample F) (active_time last_active : List (Sample F))
      → query_instant (Promql.ql_cluster_active_time itoa cluster_id (end -ℤ start))
        ≡ some (a ∷ active_time)
      → query_instant (Promql.ql_cluster_activity cluster_id) ≡ some (l ∷ last_active)
      → query_cluster_basic_property itoa backend now cluster_id start end schedule
        ≡ done (some (parse_cluster_basic_property now a l))
  unfolding query_cluster_basic_property first_property cluster_callers
  query_cluster_basic_property-replies schedule a l active_time last_active ha hl =
      rw
        (
          ha,
          hl,
          join-AreFine schedule (Caller.waiting none none ∷ Caller.waiting none none ∷ [])
              ((refl, refl), ((refl, refl), tt)),
        )
        refl

  -- Where the first query fails and the second replies with samples, a schedule lets the second overwrite
  -- the error between the test of the first and its return, and an empty list is indexed.
  pub query_cluster_basic_property-panics :
      (l : Sample F) (last_active : List (Sample F))
      → query_instant (Promql.ql_cluster_active_time itoa cluster_id (end -ℤ start)) ≡ none
      → query_instant (Promql.ql_cluster_activity cluster_id) ≡ some (l ∷ last_active)
      → query_cluster_basic_property itoa backend now cluster_id start end
          (0 ∷ 0 ∷ 1 ∷ 0 ∷ 0 ∷ 0 ∷ 1 ∷ 1 ∷ 1 ∷ [])
        ≡ panic
  unfolding query_cluster_basic_property first_property cluster_callers join interleave turn advance
      reports
  query_cluster_basic_property-panics l last_active ha hl = rw (ha, hl) refl
