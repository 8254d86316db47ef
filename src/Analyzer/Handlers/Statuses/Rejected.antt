-- ===== src/Analyzer/Handlers/Statuses/Rejected.antt =====
-- Which requests get status 400.
use kubefin.Base.{
  ℕ, String, is_some, ◌↔◌, true, ◌==◌, string_key, List, ◌≡◌, inl, inr, refl, Outcome, done,
  Holds-result, Option-cases, Bool-cases, arith,
}
use kubefin.Base.Int.{ℤ}
use kubefin.External.Float64.{Float64}
use kubefin.Analyzer.Query.{Backend}
use kubefin.Analyzer.Times.{get_start_end_steps_time_from_ctx}
use kubefin.Analyzer.Handlers.{
  Message, StatusError, Payload, Response, Context, Environment, parse_cluster_from_ctx,
  new_status_error, forward_status_error, bad_parameters, with_cluster_and_times,
  query_para_error_status, query_para_error_reason, default_step_seconds,
}
use kubefin.Analyzer.Handlers.Costs.{
  cluster_namespaces_costs_handler, cluster_resource_costs_handler, cluster_workloads_costs_handler,
}
use kubefin.Analyzer.Handlers.Resources.{
  cluster_resources_handler, cluster_cpu_resources_handler, cluster_memory_resources_handler,
}
use kubefin.Analyzer.Handlers.Routes.{Route, serve}
use kubefin.Analyzer.Handlers.Statuses.{lacks_cluster_or_times, is_rejected}
use kubefin.Analyzer.Handlers.Statuses.Parts.{IsFair}
use kubefin.Analyzer.Handlers.Statuses.Fair.{serve-IsFair}

module _ {F : Type 0} ⦃float : Float64 F⦄ (env : Environment F)
    (encodes : (e : StatusError) → is_some (env.marshal (Payload.status_error e)) ≡ true) where
  -- The answer is an error of status 400.
  abbrev IsBadRequest : Outcome Response → Type 0
  IsBadRequest answer = (body : String) × (answer ≡ done (Response.json 400 body))

  bad_parameters-IsBadRequest :
      (message : Message) → IsBadRequest (done (bad_parameters env message))
  unfolding bad_parameters forward_status_error new_status_error
  bad_parameters-IsBadRequest message =
      let e = new_status_error query_para_error_status query_para_error_reason message 400 in
      elim (Option-cases (env.marshal (Payload.status_error e))) [
        | inl missing ↦ absurd (ground (arith, encodes e))
        | inr (body, known) ↦ (body, rw (forward_status_error, known) refl)
      ]

  with_cluster_and_times-IsBadRequest :
      (ctx : Context) (handle : String → ℤ → ℤ → ℤ → Outcome Response)
      → lacks_cluster_or_times env ctx ≡ true
      → IsBadRequest (with_cluster_and_times env ctx handle)
  unfolding with_cluster_and_times
  with_cluster_and_times-IsBadRequest ctx handle rejected =
      let times =
        get_start_end_steps_time_from_ctx env.parse_int env.month ctx.query default_step_seconds in
      elim (Bool-cases (parse_cluster_from_ctx ctx == "")) [
        | inl missing ↦ rw (with_cluster_and_times, missing) (bad_parameters-IsBadRequest _)
        | inr present ↦ elim (Option-cases times) [
          | inl bad ↦ rw (with_cluster_and_times, present, bad) (bad_parameters-IsBadRequest _)
          | inr ((start, end, step_seconds), known) ↦ absurd (ground (arith, rejected))
        ]
      ]

  cluster_resources_handler-IsBadRequest :
      (backend : String → Backend F) (schedule : ℕ → List ℕ) (ctx : Context)
      (resource_type : String)
      → (parse_cluster_from_ctx ctx == "") ≡ true
      → IsBadRequest (cluster_resources_handler env backend schedule ctx resource_type)
  unfolding cluster_resources_handler
  cluster_resources_handler-IsBadRequest backend schedule ctx resource_type missing =
      rw (cluster_resources_handler, missing) (bad_parameters-IsBadRequest _)

  serve-IsBadRequest :
      (backend : String → Backend F) (schedule : ℕ → List ℕ) (route : Route) (ctx : Context)
      → is_rejected env route ctx ≡ true
      → IsBadRequest (serve env backend schedule route ctx)
  unfolding serve cluster_cpu_resources_handler cluster_memory_resources_handler
      cluster_resource_costs_handler cluster_workloads_costs_handler
      cluster_namespaces_costs_handler
  serve-IsBadRequest backend schedule Route.resources_summary ctx h = absurd (ground arith)
  serve-IsBadRequest backend schedule Route.cluster_resources_summary ctx h = absurd (ground arith)
  serve-IsBadRequest backend schedule Route.cluster_cpu ctx h =
      cluster_resources_handler-IsBadRequest backend schedule ctx "cpu" h
  serve-IsBadRequest backend schedule Route.cluster_memory ctx h =
      cluster_resources_handler-IsBadRequest backend schedule ctx "memory" h
  serve-IsBadRequest backend schedule Route.costs_summary ctx h = absurd (ground arith)
  serve-IsBadRequest backend schedule Route.cluster_costs_summary ctx h = absurd (ground arith)
  serve-IsBadRequest backend schedule Route.cluster_resource ctx h =
      with_cluster_and_times-IsBadRequest ctx _ h
  serve-IsBadRequest backend schedule Route.cluster_workload ctx h =
      with_cluster_and_times-IsBadRequest ctx _ h
  serve-IsBadRequest backend schedule Route.cluster_namespace ctx h =
      with_cluster_and_times-IsBadRequest ctx _ h

-- Where the encoding of errors does not fail, a request gets status 400 exactly when it names no
-- cluster on a route of one cluster's CPU, memory, resources, workloads or namespaces, or asks
-- for times that cannot be read on one of the last three, whatever the backend replies and under
-- every schedule.
pub serve-is_rejected :
    {F : Type 0} ⦃float : Float64 F⦄ (env : Environment F) (backend : String → Backend F)
    (schedule : ℕ → List ℕ) (route : Route) (ctx : Context)
    → ((e : StatusError) → is_some (env.marshal (Payload.status_error e)) ≡ true)
    → ((body : String) × (serve env backend schedule route ctx ≡ done (Response.json 400 body)))
      ↔ (is_rejected env route ctx ≡ true)
serve-is_rejected env backend schedule route ctx encodes = (
  λ answer.
      (Holds-result (IsFair env (is_rejected env route ctx ≡ true)) _ _ answer.1
          (serve-IsFair env backend schedule route ctx)).1
        refl,
  λ rejected. serve-IsBadRequest env encodes backend schedule route ctx rejected,
)
