-- ===== src/Analyzer/Tests/Handlers.antt =====
-- The theorems about the handlers at small requests.
use kubefin.Base.{
  ℕ, String, string_key, Option, none, some, is_some, true, false, List, [], ◌∷◌, ◌≡◌, ◌↔◌, refl,
  get, or_else, ◌==◌, if◌then◌else◌, done,
}
use kubefin.Base.Int.{pos}
use kubefin.External.Float64.{whole}
use kubefin.Analyzer.Query.{
  Sample, SampleStream, Request, Decoded, PromQueryClient, with_tenant_id, Backend,
  query_range_with_step, range_request, body_of,
}
use kubefin.Analyzer.Times.{get_start_end_time_from_ctx, get_start_end_steps_time_from_ctx}
use kubefin.Analyzer.Handlers.{
  StatusError, Payload, Response, Context, Environment, client_of, with_cluster_and_times,
  respond_with, respond,
}
use kubefin.Analyzer.Goroutines.{wait, run, step, act, reports}
use kubefin.Analyzer.ResourceCost.Queries.{
  query_cluster_resource_cost, query_node_total_cost, query_node_billing_mode_cost,
  query_node_resource_total_cost, query_node_cpu_total_hour, query_node_cpu_usage_hour,
  query_node_ram_total_hour, query_node_ram_usage_hour,
}
use kubefin.Analyzer.Handlers.Costs.{cluster_resource_costs_handler}
use kubefin.Analyzer.Handlers.Routes.{Route, serve}
use kubefin.Analyzer.Handlers.Tenants.{Agree, serve-Agree}
use kubefin.Analyzer.Handlers.Statuses.{IsSound, is_rejected}
use kubefin.Analyzer.Handlers.Statuses.Fair.{serve-IsSound}
use kubefin.Analyzer.Handlers.Statuses.Rejected.{serve-is_rejected}

abbrev encode : Payload ℕ → Option String
encode (Payload.status_error e) = some "an error"
encode p = some "a result"

abbrev env : Environment ℕ
env = record {
  itoa = λ i. "0";
  parse_int = λ base text. if text == "60" then some (pos 60) else none;
  month = (pos 0, pos 86400);
  two_months_ago = pos 0;
  now = 500;
  to_int64 = λ n. n;
  marshal = encode;
}

abbrev client : PromQueryClient
client = record { endpoint = "http://mimir"; tenant_id = "" }

-- The backend answers the tenant "shop", and what it answers others varies.
abbrev send : Option (ℕ × String) → Request → Option (ℕ × String)
send others request =
    if or_else "" (get "X-Scope-OrgID" request.headers) == "shop"
    then some (200, "samples")
    else others

abbrev decode_samples : String → Decoded (Sample ℕ)
decode_samples body = record {
  is_error = false;
  result = record { metric = ("cluster_id", "a") ∷ []; value = 60; timestamp = 400 } ∷ [];
}

abbrev decode_streams : String → Decoded (SampleStream ℕ)
decode_streams body = record {
  is_error = false;
  result = record { metric = ("cluster_id", "a") ∷ []; values = (400, 1) ∷ (460, 1) ∷ [] } ∷ [];
}

-- A request for the costs of the resources of the cluster "a".
abbrev request_of : String → String → Context
request_of tenant_id step = record {
  get_header = λ name. if name == "X-Scope-OrgID" then tenant_id else "";
  param = λ name. if name == "cluster_id" then "a" else "";
  query = λ name. if name == "stepSeconds" then step else "";
}

abbrev schedule : ℕ → List ℕ
schedule n = 0 ∷ 0 ∷ 0 ∷ 1 ∷ 1 ∷ 1 ∷ 2 ∷ 2 ∷ 2 ∷ 3 ∷ 3 ∷ 3 ∷ 4 ∷ 4 ∷ 4 ∷ 5 ∷ 5 ∷ 5 ∷ 6 ∷ 6 ∷ 6 ∷ []

shop_agree : Agree client (send none) (send (some (200, "secrets"))) "shop"
unfolding get with_tenant_id
shop_agree request h = rw (h) refl

serve-Agree_example :
    serve env
      (client_of env.itoa client (send none) decode_samples decode_streams)
      schedule
      Route.cluster_resource
      (request_of "shop" "60")
    ≡ serve env
        (client_of env.itoa client (send (some (200, "secrets"))) decode_samples decode_streams)
        schedule
        Route.cluster_resource
        (request_of "shop" "60")
serve-Agree_example =
    serve-Agree env client decode_samples decode_streams (send none) (send (some (200, "secrets")))
      schedule Route.cluster_resource (request_of "shop" "60") shop_agree

abbrev backend : String → Backend ℕ
backend = client_of env.itoa client (send none) decode_samples decode_streams

served :
    serve env backend schedule Route.cluster_resource (request_of "shop" "60")
    ≡ done (Response.json 200 "a result")
unfolding serve cluster_resource_costs_handler with_cluster_and_times get_start_end_time_from_ctx
    get_start_end_steps_time_from_ctx respond_with respond query_cluster_resource_cost wait run step
    act reports query_node_total_cost query_node_billing_mode_cost query_node_resource_total_cost
    query_node_cpu_total_hour query_node_cpu_usage_hour query_node_ram_total_hour
    query_node_ram_usage_hour with_tenant_id query_range_with_step range_request body_of get
served = refl

serve-IsSound_example : IsSound env (Response.json 200 "a result")
serve-IsSound_example =
    serve-IsSound env backend schedule Route.cluster_resource (request_of "shop" "60")
      (Response.json 200 "a result") served

abbrev encodes : (e : StatusError) → is_some (encode (Payload.status_error e)) ≡ true
encodes e = refl

-- The step of the request is not a number.
serve-is_rejected_example :
    ((body : String) × (serve env backend schedule Route.cluster_resource
          (request_of "shop" "an hour")
        ≡ done (Response.json 400 body)))
    ↔ (is_rejected env Route.cluster_resource (request_of "shop" "an hour") ≡ true)
serve-is_rejected_example =
    serve-is_rejected env backend schedule Route.cluster_resource (request_of "shop" "an hour")
      encodes

is_rejected-true : is_rejected env Route.cluster_resource (request_of "shop" "an hour") ≡ true
unfolding get_start_end_time_from_ctx get_start_end_steps_time_from_ctx
is_rejected-true = refl
