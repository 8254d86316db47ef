-- ===== src/Analyzer/Handlers/Resources.antt =====
-- The handlers of resources (pkg/analyzer/server/resources_handler, pkg/analyzer/utils/utils.go).
use kubefin.Base.{
  concat, ℕ, String, ◌==◌, string_key, Option, none, some, List, [], ◌∷◌, map, if◌then◌else◌,
  Outcome, done, ◌>>=◌,
}
use Prim.Native.String.{◌++◌ as append}
use kubefin.Base.Int.{pos}
use kubefin.External.Float64.{Float64}
use kubefin.Analyzer.Query.{SampleStream, Backend}
use kubefin.Analyzer.Query.Promql
use kubefin.Analyzer.Steps.{get_cluster_details_start_end_step_time}
use kubefin.Analyzer.ClusterMetrics.Ranges.{
  ClusterResourceMetrics, query_cluster_resources_summary_with_time_range,
}
use kubefin.Analyzer.ClusterMetrics.AllClusters.{
  query_all_clusters_current_metrics, convert_to_multi_clusters_resources_list,
}
use kubefin.Analyzer.ClusterMetrics.OneCluster.{query_cluster_current_resources}
use kubefin.Analyzer.ClusterMetrics.Properties.{
  query_all_clusters_basic_property, query_cluster_basic_property,
}
use kubefin.Analyzer.Handlers.{
  Message, Payload, Response, Context, Environment, parser_tenant_id_from_ctx,
  parse_cluster_from_ctx, query_failed, bad_parameters, respond, forward_status_error,
  query_not_found_status, query_not_found_reason, get_current_two_month_start_end_time,
}

-- The pointer that a query returns without an error is `&types...{...}`, which is not nil.
abbrev pub pointer_to : {A : Type 0} → Option A → Option (Option A)
pointer_to none = none
pointer_to (some a) = some (some a)

-- The times of the samples of each series of the reply.
abbrev pub times_of : {F : Type 0} → Option (List (SampleStream F)) → Option (List (List ℕ))
times_of none = none
times_of (some streams) = some (map (λ s. map (λ v. v.0) (SampleStream.values s)) streams)

-- The response to an error, a nil pointer or a pointer to metrics.
unfoldable pub respond_to_metrics :
    {F : Type 0} → Environment F → Message → Option (Option (ClusterResourceMetrics F)) → Response
respond_to_metrics env not_found none = query_failed env
respond_to_metrics env not_found (some none) =
    forward_status_error env 404 query_not_found_status query_not_found_reason not_found
respond_to_metrics env not_found (some (some metrics)) =
    respond env (Payload.resource_metrics metrics)

module _ {F : Type 0} ⦃float : Float64 F⦄ (env : Environment F) (backend : String → Backend F)
    (schedule : ℕ → List ℕ) (ctx : Context) where
  unfoldable pub cluster_resources_handler : String → Outcome Response
  cluster_resources_handler resource_type =
      let client = backend (parser_tenant_id_from_ctx ctx) in
      let cluster_id = parse_cluster_from_ctx ctx in
      if cluster_id == "" then done (bad_parameters env (Message.text "")) else (do
        times ←
            get_cluster_details_start_end_step_time
              (times_of (
                Backend.query_instant_range client
                  (append (Promql.ql_cluster_activity cluster_id) "[60d]")))
              env.now
        done (elim times [
          | none ↦ query_failed env
          | some (start_time, end_time, step_seconds) ↦
              let not_found = Message.text (
                concat (
                  "Resource("
                  ∷ resource_type
                  ∷ ") not found for cluster("
                  ∷ cluster_id
                  ∷ ") from "
                  ∷ env.itoa (pos start_time)
                  ∷ " to "
                  ∷ env.itoa (pos end_time)
                  ∷ [])) in
              respond_to_metrics env not_found (
                pointer_to (
                  query_cluster_resources_summary_with_time_range client cluster_id resource_type
                    (pos start_time) (pos end_time) (pos step_seconds) (schedule 0)))
        ]))

  unfoldable pub cluster_cpu_resources_handler : Outcome Response
  cluster_cpu_resources_handler = cluster_resources_handler "cpu"

  unfoldable pub cluster_memory_resources_handler : Outcome Response
  cluster_memory_resources_handler = cluster_resources_handler "memory"

  unfoldable pub clusters_resources_summary_handler : Outcome Response
  clusters_resources_summary_handler =
      let client = backend (parser_tenant_id_from_ctx ctx) in
      let period = get_current_two_month_start_end_time env in
      elim (query_all_clusters_basic_property env.itoa client env.now period.0 period.1
        (schedule 0)) [
          | none ↦ done (query_failed env)
          | some all_clusters_property ↦
              elim (query_all_clusters_current_metrics client env.to_int64 (schedule 1)) [
                | none ↦ done (query_failed env)
                | some all_clusters_summary ↦ done (
                    respond env (
                      Payload.resources_summary_list (
                        convert_to_multi_clusters_resources_list all_clusters_summary
                          all_clusters_property)))
              ]
        ]

  unfoldable pub cluster_resources_summary_handler : Outcome Response
  cluster_resources_summary_handler =
      let client = backend (parser_tenant_id_from_ctx ctx) in
      let cluster_id = parse_cluster_from_ctx ctx in
      let period = get_current_two_month_start_end_time env in
      query_cluster_basic_property env.itoa client env.now cluster_id period.0 period.1 (schedule 0)
      >>= (λ clusters_property. elim clusters_property [
        | none ↦ done (query_failed env)
        | some property ↦
            done
              (elim (query_cluster_current_resources client env.to_int64 cluster_id (schedule 1)) [
                | none ↦ query_failed env
                | some cluster_summary ↦ respond env (
                    Payload.resources_summary
                      (record cluster_summary { basic_property = property }))
              ])
      ])
