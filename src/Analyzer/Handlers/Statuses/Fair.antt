-- ===== src/Analyzer/Handlers/Statuses/Fair.antt =====
-- The soundness of the responses, route by route.
use kubefin.Base.{
  ℕ, String, true, string_key, List, ◌≡◌, refl, done, Holds, Holds-bind, Holds-result, arith,
}
use kubefin.Base.Int.{ℤ}
use kubefin.External.Float64.{Float64}
use kubefin.Analyzer.Query.{Backend}
use kubefin.Analyzer.Handlers.{
  Message, Payload, Response, Context, Environment, parse_cluster_from_ctx,
  parser_tenant_id_from_ctx, get_current_two_month_start_end_time, query_not_found_status,
  query_not_found_reason,
}
use kubefin.Analyzer.Handlers.Costs.{
  cluster_namespaces_costs_handler, cluster_resource_costs_handler, cluster_workloads_costs_handler,
  clusters_costs_summary_handler, cluster_costs_summary_handler,
}
use kubefin.Analyzer.Handlers.Resources.{
  cluster_cpu_resources_handler, cluster_memory_resources_handler,
  clusters_resources_summary_handler, cluster_resources_summary_handler,
}
use kubefin.Analyzer.ClusterMetrics.AllClusters.{convert_to_multi_clusters_resources_list}
use kubefin.Analyzer.ClusterMetrics.Properties.{
  convert_to_multi_clusters_costs_list, query_cluster_basic_property,
}
use kubefin.Analyzer.Handlers.Routes.{Route, serve}
use kubefin.Analyzer.Handlers.Statuses.{IsSound, is_rejected}
use kubefin.Analyzer.Handlers.Statuses.Parts.{
  IsFair, fair, forward_status_error-IsFair, query_failed-IsFair, respond_with-IsFair,
  with_cluster_and_times-IsFair, option-IsFair, all_summaries-IsFair, summary-IsFair, month-IsFair,
  cluster_resources_handler-IsFair,
}

pub serve-IsFair :
    {F : Type 0} ⦃float : Float64 F⦄ (env : Environment F) (backend : String → Backend F)
    (schedule : ℕ → List ℕ) (route : Route) (ctx : Context)
    → Holds (IsFair env (is_rejected env route ctx ≡ true)) (serve env backend schedule route ctx)
unfolding serve clusters_resources_summary_handler cluster_resources_summary_handler
    cluster_cpu_resources_handler cluster_memory_resources_handler clusters_costs_summary_handler
    cluster_costs_summary_handler cluster_resource_costs_handler cluster_workloads_costs_handler
    cluster_namespaces_costs_handler
serve-IsFair env backend schedule Route.resources_summary ctx =
    all_summaries-IsFair env _ Payload.resources_summary_list _ _
      (λ p s. done (convert_to_multi_clusters_resources_list s p)) (λ c. refl)
serve-IsFair env backend schedule Route.cluster_resources_summary ctx =
    Holds-bind (IsFair env _) _ _ (λ property.
      option-IsFair env _ _ _ property (fair env _ _ (query_failed-IsFair env _)) (λ p.
        fair env _ _ (
          summary-IsFair env _ (λ s. Payload.resources_summary (record s { basic_property = p })) _
            (λ s. refl))))
serve-IsFair env backend schedule Route.cluster_cpu ctx =
    cluster_resources_handler-IsFair env _ backend schedule ctx "cpu" (λ h. h)
serve-IsFair env backend schedule Route.cluster_memory ctx =
    cluster_resources_handler-IsFair env _ backend schedule ctx "memory" (λ h. h)
serve-IsFair env backend schedule Route.costs_summary ctx =
    all_summaries-IsFair env _ Payload.costs_summary_list _ _
      (λ p s. convert_to_multi_clusters_costs_list s p) (λ c. refl)
serve-IsFair env backend schedule Route.cluster_costs_summary ctx =
    let property_of = λ (period : ℤ × ℤ) (waits : List ℕ).
      query_cluster_basic_property env.itoa (backend (parser_tenant_id_from_ctx ctx)) env.now
        (parse_cluster_from_ctx ctx) period.0 period.1 waits in
    Holds-bind (IsFair env _) (property_of (get_current_two_month_start_end_time env) (schedule 0))
      _
      (λ property.
        option-IsFair env _ _ _ property
          (fair env _ _ (
            forward_status_error-IsFair env _ 404 query_not_found_status query_not_found_reason
              (Message.text "no clusters found") (λ e. absurd (ground arith))
              (λ e. absurd (ground arith))))
          (λ p.
            month-IsFair env _ (λ s. Payload.costs_summary (record s { basic_property = p }))
              (property_of env.month (schedule 2)) _ (λ s. refl)))
serve-IsFair env backend schedule Route.cluster_resource ctx =
    with_cluster_and_times-IsFair env _ ctx _ (λ h. h)
      (λ cluster_id start end step_seconds.
        fair env _ _ (respond_with-IsFair env _ Payload.resource_costs (λ a. refl) _))
serve-IsFair env backend schedule Route.cluster_workload ctx =
    with_cluster_and_times-IsFair env _ ctx _ (λ h. h)
      (λ cluster_id start end step_seconds. Holds-bind (IsFair env _) _ _ (λ costs.
        fair env _ _ (respond_with-IsFair env _ Payload.workload_costs (λ a. refl) costs)))
serve-IsFair env backend schedule Route.cluster_namespace ctx =
    with_cluster_and_times-IsFair env _ ctx _ (λ h. h)
      (λ cluster_id start end step_seconds. Holds-bind (IsFair env _) _ _ (λ costs.
        fair env _ _ (respond_with-IsFair env _ Payload.namespace_costs (λ a. refl) costs)))

-- Every response is sound, on every route, whatever the backend replies and under every schedule: a body of
-- status 200 is the encoding of a result, the body of any other status that of an error which has the
-- status as its code, and an answer without a body has status 500.
pub serve-IsSound :
    {F : Type 0} ⦃float : Float64 F⦄ (env : Environment F) (backend : String → Backend F)
    (schedule : ℕ → List ℕ) (route : Route) (ctx : Context) (r : Response)
    → serve env backend schedule route ctx ≡ done r
    → IsSound env r
serve-IsSound env backend schedule route ctx r h =
    (Holds-result (IsFair env (is_rejected env route ctx ≡ true)) _ r h
      (serve-IsFair env backend schedule route ctx)).0
