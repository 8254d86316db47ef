-- ===== src/Analyzer/Handlers/Statuses.antt =====
-- The statuses and bodies of the responses: what a sound response is, and which requests are rejected.
mod Parts
pub mod Fair
pub mod Rejected
use kubefin.Base.{
  ℕ, String, Bool, not, ◌||◌, is_some, ◌↔◌, true, false, ◌==◌, string_key, Option, none, some, List,
  ◌≡◌, ◌≢◌, ◌⊎◌, inl, inr, refl, sym, ap, subst, ◌∙◌, Outcome, done, panic, ◌>>=◌, Holds,
  Holds-done, Holds-bind, Holds-result, Option-cases, Bool-cases, if◌then◌else◌, arith,
}
use kubefin.Base.Int.{ℤ}
use kubefin.External.Float64.{Float64}
use kubefin.Analyzer.Query.{Backend}
use kubefin.Analyzer.Times.{get_start_end_steps_time_from_ctx}
use kubefin.Analyzer.Handlers.{
  Message, StatusError, Payload, Response, Context, Environment, parse_cluster_from_ctx,
  parser_tenant_id_from_ctx, get_current_two_month_start_end_time, new_status_error,
  forward_status_error, query_failed, bad_parameters, respond, respond_with, with_cluster_and_times,
  query_not_found_status, query_not_found_reason, default_step_seconds,
}
use kubefin.Analyzer.Handlers.Costs.{
  cluster_namespaces_costs_handler, cluster_resource_costs_handler, cluster_workloads_costs_handler,
  clusters_costs_summary_handler, cluster_costs_summary_handler,
}
use kubefin.Analyzer.Handlers.Resources.{
  cluster_resources_handler, cluster_cpu_resources_handler, cluster_memory_resources_handler,
  clusters_resources_summary_handler, cluster_resources_summary_handler,
}
use kubefin.Analyzer.ClusterMetrics.Ranges.{ClusterResourceMetrics}
use kubefin.Analyzer.ClusterMetrics.AllClusters.{convert_to_multi_clusters_resources_list}
use kubefin.Analyzer.ClusterMetrics.Properties.{
  convert_to_multi_clusters_costs_list, query_cluster_basic_property,
}
use kubefin.Analyzer.Handlers.Routes.{Route, serve}

abbrev pub is_status_error : {F : Type 0} → Payload F → Bool
is_status_error (Payload.status_error e) = true
is_status_error (Payload.namespace_costs p) = false
is_status_error (Payload.resource_costs p) = false
is_status_error (Payload.workload_costs p) = false
is_status_error (Payload.costs_summary_list p) = false
is_status_error (Payload.costs_summary p) = false
is_status_error (Payload.resource_metrics p) = false
is_status_error (Payload.resources_summary_list p) = false
is_status_error (Payload.resources_summary p) = false

abbrev pub status_of : Response → ℕ
status_of (Response.empty code) = code
status_of (Response.json code body) = code

module _ {F : Type 0} (env : Environment F) where
  -- A body of status 200 is the encoding of a result; any other is that of an error with the status as its
  -- code, and the empty body has status 500.
  abbrev pub IsSound : Response → Type 0
  IsSound (Response.empty code) = code ≡ 500
  IsSound (Response.json code body) =
      ((code ≡ 200)
        × ((payload : Payload F) × ((env.marshal payload ≡ some body)
              × (is_status_error payload ≡ false))))
      ⊎ ((code ≢ 200)
          × ((e : StatusError) × ((env.marshal (Payload.status_error e) ≡ some body)
                × (e.code ≡ code))))

-- The request has no cluster, or its times are not numbers.
abbrev pub lacks_cluster_or_times : {F : Type 0} → Environment F → Context → Bool
lacks_cluster_or_times env ctx =
    (parse_cluster_from_ctx ctx == "")
    || not (
        is_some (
          get_start_end_steps_time_from_ctx env.parse_int env.month ctx.query default_step_seconds))

-- The requests that are answered with 400: those without a cluster on the routes of one cluster's CPU and
-- memory, and those without a cluster or with times that cannot be read on the routes of its resources,
-- workloads and namespaces. The two summaries of one cluster do not test the cluster.
abbrev pub is_rejected : {F : Type 0} → Environment F → Route → Context → Bool
is_rejected env Route.resources_summary ctx = false
is_rejected env Route.cluster_resources_summary ctx = false
is_rejected env Route.cluster_cpu ctx = parse_cluster_from_ctx ctx == ""
is_rejected env Route.cluster_memory ctx = parse_cluster_from_ctx ctx == ""
is_rejected env Route.costs_summary ctx = false
is_rejected env Route.cluster_costs_summary ctx = false
is_rejected env Route.cluster_resource ctx = lacks_cluster_or_times env ctx
is_rejected env Route.cluster_workload ctx = lacks_cluster_or_times env ctx
is_rejected env Route.cluster_namespace ctx = lacks_cluster_or_times env ctx
