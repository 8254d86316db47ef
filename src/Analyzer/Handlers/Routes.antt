-- ===== src/Analyzer/Handlers/Routes.antt =====
-- pkg/analyzer/router/router.go: the handlers by their routes. The matching of paths is gin's.
use kubefin.Base.{ℕ, String, List, [], ◌∷◌, Outcome}
use kubefin.External.Float64.{Float64}
use kubefin.Analyzer.Query.{Backend}
use kubefin.Analyzer.Handlers.{Response, Context, Environment}
use kubefin.Analyzer.Handlers.Costs.{
  cluster_namespaces_costs_handler, cluster_resource_costs_handler, cluster_workloads_costs_handler,
  clusters_costs_summary_handler, cluster_costs_summary_handler,
}
use kubefin.Analyzer.Handlers.Resources.{
  cluster_cpu_resources_handler, cluster_memory_resources_handler,
  clusters_resources_summary_handler, cluster_resources_summary_handler,
}

pub data Route : Type 0 where
  resources_summary cluster_resources_summary cluster_cpu cluster_memory : Route
  costs_summary cluster_costs_summary cluster_resource cluster_workload cluster_namespace : Route

abbrev pub init_metrics_router : List (String × Route)
init_metrics_router =
    ("/api/v1/resources/summary", Route.resources_summary)
    ∷ ("/api/v1/resources/clusters/:cluster_id/summary", Route.cluster_resources_summary)
    ∷ ("/api/v1/resources/clusters/:cluster_id/cpu", Route.cluster_cpu)
    ∷ ("/api/v1/resources/clusters/:cluster_id/memory", Route.cluster_memory)
    ∷ []

abbrev pub init_cost_analyze_router : List (String × Route)
init_cost_analyze_router =
    ("/api/v1/costs/summary", Route.costs_summary)
    ∷ ("/api/v1/costs/clusters/:cluster_id/summary", Route.cluster_costs_summary)
    ∷ ("/api/v1/costs/clusters/:cluster_id/resource", Route.cluster_resource)
    ∷ ("/api/v1/costs/clusters/:cluster_id/workload", Route.cluster_workload)
    ∷ ("/api/v1/costs/clusters/:cluster_id/namespace", Route.cluster_namespace)
    ∷ []

-- The handler of a route.
unfoldable pub serve :
    {F : Type 0} ⦃float : Float64 F⦄
    → Environment F
    → (String → Backend F)
    → (ℕ → List ℕ)
    → Route
    → Context
    → Outcome Response
serve env backend schedule Route.resources_summary ctx =
    clusters_resources_summary_handler env backend schedule ctx
serve env backend schedule Route.cluster_resources_summary ctx =
    cluster_resources_summary_handler env backend schedule ctx
serve env backend schedule Route.cluster_cpu ctx =
    cluster_cpu_resources_handler env backend schedule ctx
serve env backend schedule Route.cluster_memory ctx =
    cluster_memory_resources_handler env backend schedule ctx
serve env backend schedule Route.costs_summary ctx =
    clusters_costs_summary_handler env backend schedule ctx
serve env backend schedule Route.cluster_costs_summary ctx =
    cluster_costs_summary_handler env backend schedule ctx
serve env backend schedule Route.cluster_resource ctx =
    cluster_resource_costs_handler env backend schedule ctx
serve env backend schedule Route.cluster_workload ctx =
    cluster_workloads_costs_handler env backend schedule ctx
serve env backend schedule Route.cluster_namespace ctx =
    cluster_namespaces_costs_handler env backend schedule ctx
