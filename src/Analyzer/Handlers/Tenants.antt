-- ===== src/Analyzer/Handlers/Tenants.antt =====
-- The tenant of a request.
use kubefin.Base.{ℕ, String, Option, none, some, List, ◌≡◌, refl, ap}
use kubefin.Base.Int.{ℤ}
use kubefin.External.Float64.{Float64}
use kubefin.Analyzer.Query.{
  Sample, SampleStream, Request, Decoded, PromQueryClient, Backend, tenant_headers, with_tenant_id,
  body_of, query_instant, query_instant_range, query_range_with_step, instant_request,
  range_request,
}
use kubefin.Analyzer.Handlers.{Context, Environment, parser_tenant_id_from_ctx, client_of}
use kubefin.Analyzer.Handlers.Costs.{
  cluster_namespaces_costs_handler, cluster_resource_costs_handler, cluster_workloads_costs_handler,
  clusters_costs_summary_handler, cluster_costs_summary_handler,
}
use kubefin.Analyzer.Handlers.Resources.{
  cluster_resources_handler, cluster_cpu_resources_handler, cluster_memory_resources_handler,
  clusters_resources_summary_handler, cluster_resources_summary_handler,
}
use kubefin.Analyzer.Handlers.Routes.{Route, serve}

-- A handler asks its request's tenant alone.
serve-client :
    {F : Type 0} ⦃float : Float64 F⦄ (env : Environment F) (backend other : String → Backend F)
    (schedule : ℕ → List ℕ) (route : Route) (ctx : Context)
    → backend (parser_tenant_id_from_ctx ctx) ≡ other (parser_tenant_id_from_ctx ctx)
    → serve env backend schedule route ctx ≡ serve env other schedule route ctx
unfolding serve clusters_resources_summary_handler cluster_resources_summary_handler
    cluster_cpu_resources_handler cluster_memory_resources_handler cluster_resources_handler
    clusters_costs_summary_handler cluster_costs_summary_handler cluster_resource_costs_handler
    cluster_workloads_costs_handler cluster_namespaces_costs_handler
serve-client env backend other schedule Route.resources_summary ctx h =
    ap (λ b. serve env (λ tenant_id. b) schedule Route.resources_summary ctx) h
serve-client env backend other schedule Route.cluster_resources_summary ctx h =
    ap (λ b. serve env (λ tenant_id. b) schedule Route.cluster_resources_summary ctx) h
serve-client env backend other schedule Route.cluster_cpu ctx h =
    ap (λ b. serve env (λ tenant_id. b) schedule Route.cluster_cpu ctx) h
serve-client env backend other schedule Route.cluster_memory ctx h =
    ap (λ b. serve env (λ tenant_id. b) schedule Route.cluster_memory ctx) h
serve-client env backend other schedule Route.costs_summary ctx h =
    ap (λ b. serve env (λ tenant_id. b) schedule Route.costs_summary ctx) h
serve-client env backend other schedule Route.cluster_costs_summary ctx h =
    ap (λ b. serve env (λ tenant_id. b) schedule Route.cluster_costs_summary ctx) h
serve-client env backend other schedule Route.cluster_resource ctx h =
    ap (λ b. serve env (λ tenant_id. b) schedule Route.cluster_resource ctx) h
serve-client env backend other schedule Route.cluster_workload ctx h =
    ap (λ b. serve env (λ tenant_id. b) schedule Route.cluster_workload ctx) h
serve-client env backend other schedule Route.cluster_namespace ctx h =
    ap (λ b. serve env (λ tenant_id. b) schedule Route.cluster_namespace ctx) h

module _ (client : PromQueryClient) (send other : Request → Option (ℕ × String))
    (tenant_id : String) where
  -- The two exchanges agree on the requests of the tenant.
  abbrev pub Agree : Type 0
  Agree =
      (request : Request)
      → request.headers ≡ tenant_headers (with_tenant_id tenant_id client)
      → send request ≡ other request

  body_of-Agree :
      Agree
      → (request : Request) → request.headers ≡ tenant_headers (with_tenant_id tenant_id client)
      → body_of send request ≡ body_of other request
  unfolding body_of
  body_of-Agree agree request h = rw (body_of, agree request h) refl

  client_of-Agree :
      {F : Type 0} (itoa : ℤ → String) (decode_samples : String → Decoded (Sample F))
      (decode_streams : String → Decoded (SampleStream F))
      → Agree
      → client_of itoa client send decode_samples decode_streams tenant_id
        ≡ client_of itoa client other decode_samples decode_streams tenant_id
  unfolding query_instant query_instant_range query_range_with_step instant_request range_request
  client_of-Agree itoa decode_samples decode_streams agree =
      let p = with_tenant_id tenant_id client in
      let instant = λ (promql : String). body_of-Agree agree (instant_request p promql "") refl in
      let range = λ (promql : String) (start end step_seconds : ℤ).
        body_of-Agree agree (range_request itoa p promql start end step_seconds) refl in
      λ i. record {
        query_instant = λ promql. elim (instant promql i) [
          | none ↦ none
          | some body ↦ some (Decoded.result (decode_samples body))
        ];
        query_instant_range = λ promql. elim (instant promql i) [
          | none ↦ none
          | some body ↦ some (Decoded.result (decode_streams body))
        ];
        query_range_with_step = λ promql start end step_seconds.
            elim (range promql start end step_seconds i) [
              | none ↦ none
              | some body ↦ some (Decoded.result (decode_streams body))
            ];
      }

-- A response is made of the replies to requests that carry the tenant of the request alone: two exchanges
-- with the backend that agree on those give the same response, on every route and under every schedule.
pub serve-Agree :
    {F : Type 0} ⦃float : Float64 F⦄ (env : Environment F) (client : PromQueryClient)
    (decode_samples : String → Decoded (Sample F))
    (decode_streams : String → Decoded (SampleStream F))
    (send other : Request → Option (ℕ × String)) (schedule : ℕ → List ℕ) (route : Route)
    (ctx : Context)
    → Agree client send other (parser_tenant_id_from_ctx ctx)
    → serve env (client_of env.itoa client send decode_samples decode_streams) schedule route ctx
      ≡ serve env (client_of env.itoa client other decode_samples decode_streams) schedule route ctx
serve-Agree env client decode_samples decode_streams send other schedule route ctx agree =
    serve-client env _ _ schedule route ctx (
      client_of-Agree client send other (parser_tenant_id_from_ctx ctx) env.itoa decode_samples
        decode_streams agree)
