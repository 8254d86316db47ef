-- ===== src/Analyzer/Handlers/Costs.antt =====
-- The handlers of costs (pkg/analyzer/server/costs_handler). `backend` is the client by its tenant, and
-- `schedule n` the schedule of the n-th join of goroutines that the request waits for.
use kubefin.Base.{
  ℕ, String, ◌==◌, string_key, none, some, List, if◌then◌else◌, Outcome, done, ◌>>=◌,
}
use kubefin.External.Float64.{Float64}
use kubefin.Analyzer.Query.{Backend}
use kubefin.Analyzer.WorkloadCost.{aggregate_by_all}
use kubefin.Analyzer.WorkloadCost.Joined.{query_workload_cost_list}
use kubefin.Analyzer.NamespaceCost.{query_namespace_costs_with_time_range}
use kubefin.Analyzer.ResourceCost.Queries.{query_cluster_resource_cost}
use kubefin.Analyzer.ClusterCost.{
  query_all_clusters_current_month_cost, query_cluster_current_month_cost,
}
use kubefin.Analyzer.ClusterMetrics.Properties.{
  query_all_clusters_basic_property, query_cluster_basic_property,
  convert_to_multi_clusters_costs_list,
}
use kubefin.Analyzer.Handlers.{
  Message, Payload, Response, Context, Environment, parser_tenant_id_from_ctx,
  parse_cluster_from_ctx, forward_status_error, query_failed, query_not_found_status,
  query_not_found_reason, respond, respond_with, with_cluster_and_times,
  get_current_two_month_start_end_time,
}

abbrev pub query_aggregate_by : String
query_aggregate_by = "aggregateBy"

module _ {F : Type 0} ⦃float : Float64 F⦄ (env : Environment F) (backend : String → Backend F)
    (schedule : ℕ → List ℕ) (ctx : Context) where
  unfoldable pub cluster_namespaces_costs_handler : Outcome Response
  cluster_namespaces_costs_handler =
      let tenant_id = parser_tenant_id_from_ctx ctx in
      with_cluster_and_times env ctx (λ cluster_id start_time end_time step_seconds. do
        ns_cost ←
            query_namespace_costs_with_time_range env.itoa (backend tenant_id) cluster_id start_time
              end_time step_seconds (schedule 0)
        done (respond_with env Payload.namespace_costs ns_cost))

  unfoldable pub cluster_resource_costs_handler : Outcome Response
  cluster_resource_costs_handler =
      let tenant_id = parser_tenant_id_from_ctx ctx in
      with_cluster_and_times env ctx (λ cluster_id start_time end_time step_seconds. done (
        respond_with env Payload.resource_costs (
          query_cluster_resource_cost env.itoa (backend tenant_id) cluster_id start_time end_time
            step_seconds (schedule 0))))

  unfoldable pub cluster_workloads_costs_handler : Outcome Response
  cluster_workloads_costs_handler =
      let tenant_id = parser_tenant_id_from_ctx ctx in
      let asked = ctx.query query_aggregate_by in
      let aggregate_by = if asked == "" then aggregate_by_all else asked in
      with_cluster_and_times env ctx (λ cluster_id start_time end_time step_seconds. do
        workload_cost ←
            query_workload_cost_list env.itoa (backend tenant_id) cluster_id start_time end_time
              step_seconds aggregate_by (schedule 0, schedule 1, schedule 2)
        done (respond_with env Payload.workload_costs workload_cost))

  -- The joins are those of the properties of the last two months, of the costs of the month, and of the
  -- properties of the month, from which the costs take the active times.
  unfoldable pub clusters_costs_summary_handler : Outcome Response
  clusters_costs_summary_handler =
      let client = backend (parser_tenant_id_from_ctx ctx) in
      let period = get_current_two_month_start_end_time env in
      elim (query_all_clusters_basic_property env.itoa client env.now period.0 period.1
        (schedule 0)) [
          | none ↦ done (query_failed env)
          | some all_clusters_property ↦
              let of_month =
                query_all_clusters_basic_property env.itoa client env.now env.month.0 env.month.1
                  (schedule 2) in
              elim (query_all_clusters_current_month_cost env.itoa client env.month.0 env.month.1
                of_month (schedule 1)) [
                  | none ↦ done (query_failed env)
                  | some all_clusters_summary ↦ (do
                    summaries ←
                        convert_to_multi_clusters_costs_list all_clusters_summary
                          all_clusters_property
                    done (respond env (Payload.costs_summary_list summaries)))
                ]
        ]

  unfoldable pub cluster_costs_summary_handler : Outcome Response
  cluster_costs_summary_handler =
      let client = backend (parser_tenant_id_from_ctx ctx) in
      let cluster_id = parse_cluster_from_ctx ctx in
      let period = get_current_two_month_start_end_time env in
      query_cluster_basic_property env.itoa client env.now cluster_id period.0 period.1 (schedule 0)
      >>= (λ cluster_property. elim cluster_property [
        | none ↦ done (
            forward_status_error env 404 query_not_found_status query_not_found_reason
              (Message.text "no clusters found"))
        | some property ↦ (do
          of_month ←
              query_cluster_basic_property env.itoa client env.now cluster_id env.month.0
                env.month.1 (schedule 2)
          done
              (elim (query_cluster_current_month_cost env.itoa client env.month.0 env.month.1
                cluster_id of_month (schedule 1)) [
                  | none ↦ query_failed env
                  | some summary ↦
                      respond env
                        (Payload.costs_summary (record summary { basic_property = property }))
                ]))
      ])
