-- ===== src/Analyzer/Handlers.antt =====
-- What the HTTP handlers of the analyzer share (pkg/analyzer/utils/utils.go, pkg/analyzer/types/types.go and
-- the handlers of pkg/analyzer/server). gin, the encoding of JSON, the clock, the calendar and the HTTP
-- exchange with the query backend are parameters. The clock stands still while a request is served.
pub mod Costs
pub mod Resources
pub mod Routes
pub mod Tenants
pub mod Statuses
use kubefin.Base.{
  ℕ, String, ◌==◌, string_key, Option, none, some, List, if◌then◌else◌, Outcome, done,
}
use kubefin.Base.Int.{ℤ, pos}
use kubefin.Analyzer.Query.{
  Sample, SampleStream, Request, Decoded, PromQueryClient, Backend, with_tenant_id, query_instant,
  query_instant_range, query_range_with_step, multi_tenant_header,
}
use kubefin.Analyzer.Times.{get_start_end_steps_time_from_ctx}
use kubefin.Analyzer.ClusterMetrics.{ClusterResourcesSummary}
use kubefin.Analyzer.ClusterMetrics.Ranges.{ClusterResourceMetrics}
use kubefin.Analyzer.ClusterMetrics.Properties.{ClusterCostsSummary}
use kubefin.Analyzer.NamespaceCost.{ClusterNamespaceCostList}
use kubefin.Analyzer.ResourceCost.{ClusterResourceCostList}
use kubefin.Analyzer.WorkloadCost.Joined.{ClusterWorkloadCostList}

-- The message of an error: a text of the handlers, or the text of the error that a call returned.
pub data Message : Type 0 where
  text : String → Message
  of_error : Message

pub record StatusError : Type 0 where
  pub api_version : String
  pub kind : String
  pub status : String
  pub message : Message
  pub reason : String
  pub code : ℕ

-- What is encoded.
pub data Payload (F : Type 0) : Type 0 where
  status_error : StatusError → Payload F
  namespace_costs : ClusterNamespaceCostList F → Payload F
  resource_costs : ClusterResourceCostList F → Payload F
  workload_costs : ClusterWorkloadCostList F → Payload F
  costs_summary_list : List (ClusterCostsSummary F) → Payload F
  costs_summary : ClusterCostsSummary F → Payload F
  resource_metrics : ClusterResourceMetrics F → Payload F
  resources_summary_list : List (ClusterResourcesSummary F) → Payload F
  resources_summary : ClusterResourcesSummary F → Payload F

-- `ctx.String(code, "")` and `ctx.Data(code, "application/json", body)`
pub data Response : Type 0 where
  empty : ℕ → Response
  json : ℕ → String → Response

-- `*gin.Context`: `GetHeader`, `Param` and `Query`, the empty string for what is missing.
pub record Context : Type 0 where
  pub get_header : String → String
  pub param : String → String
  pub query : String → String

-- What the handlers call. `month` is `GetCurrentMonthFirstLastDay()`, `now` is `time.Now().Unix()` and
-- `two_months_ago` is `time.Now().AddDate(0, -2, 0).Unix()`; `marshal` is `json.Marshal`.
pub record Environment (F : Type 0) : Type 0 where
  pub itoa : ℤ → String
  pub parse_int : ℕ → String → Option ℤ
  pub month : ℤ × ℤ
  pub two_months_ago : ℤ
  pub now : ℕ
  pub to_int64 : F → ℕ
  pub marshal : Payload F → Option String

abbrev pub kubefin_api_version : String
kubefin_api_version = "v1"

abbrev pub kubefin_status_kind : String
kubefin_status_kind = "Status"

abbrev pub query_failed_status : String
query_failed_status = "QueryFailed"

abbrev pub query_failed_reason : String
query_failed_reason = "Query backend with promql error"

abbrev pub query_not_found_status : String
query_not_found_status = "QueryNotFound"

abbrev pub query_not_found_reason : String
query_not_found_reason = "Query parameter not found"

abbrev pub query_para_error_status : String
query_para_error_status = "BadParameters"

abbrev pub query_para_error_reason : String
query_para_error_reason = "Query parameters are wrong"

abbrev pub cluster_id_query_parameter : String
cluster_id_query_parameter = "cluster_id"

abbrev pub default_step_seconds : ℤ
default_step_seconds = pos 3600

abbrev pub parser_tenant_id_from_ctx : Context → String
parser_tenant_id_from_ctx ctx = ctx.get_header multi_tenant_header

abbrev pub parse_cluster_from_ctx : Context → String
parse_cluster_from_ctx ctx = ctx.param cluster_id_query_parameter

unfoldable pub new_status_error : String → String → Message → ℕ → StatusError
new_status_error status reason message http_code = record {
  api_version = kubefin_api_version;
  kind = kubefin_status_kind;
  status = status;
  message = message;
  reason = reason;
  code = http_code;
}

-- `query.GetPromQueryClient().WithTenantId(tenantId)`, as the queries of the analyzer use it.
abbrev pub client_of :
    {F : Type 0}
    → (ℤ → String)
    → PromQueryClient
    → (Request → Option (ℕ × String))
    → (String → Decoded (Sample F))
    → (String → Decoded (SampleStream F))
    → String
    → Backend F
client_of itoa client send decode_samples decode_streams tenant_id =
    let p = with_tenant_id tenant_id client in
    record {
      query_instant = query_instant send decode_samples p;
      query_instant_range = query_instant_range send decode_streams p;
      query_range_with_step = query_range_with_step send decode_streams itoa p;
    }

module _ {F : Type 0} (env : Environment F) where
  unfoldable pub forward_status_error : ℕ → String → String → Message → Response
  forward_status_error http_code status reason message =
      let api_error = new_status_error status reason message http_code in
      elim (env.marshal (Payload.status_error api_error)) [
        | none ↦ Response.empty 500
        | some forward_raw ↦ Response.json http_code forward_raw
      ]

  -- The two errors that the handlers share.
  unfoldable pub query_failed : Response
  query_failed = forward_status_error 500 query_failed_status query_failed_reason Message.of_error

  unfoldable pub bad_parameters : Message → Response
  bad_parameters = forward_status_error 400 query_para_error_status query_para_error_reason

  -- The end of every handler.
  unfoldable pub respond : Payload F → Response
  respond payload = elim (env.marshal payload) [
    | none ↦ query_failed
    | some body_bytes ↦ Response.json 200 body_bytes
  ]

  -- The response to what a query returns, an error or a value.
  unfoldable pub respond_with : {A : Type 0} → (A → Payload F) → Option A → Response
  respond_with payload none = query_failed
  respond_with payload (some a) = respond (payload a)

  abbrev pub get_current_two_month_start_end_time : ℤ × ℤ
  get_current_two_month_start_end_time = (env.two_months_ago, pos env.now)

  -- The cluster and the times of a request for a cluster's costs.
  unfoldable pub with_cluster_and_times :
      Context → (String → ℤ → ℤ → ℤ → Outcome Response) → Outcome Response
  with_cluster_and_times ctx serve =
      let cluster_id = parse_cluster_from_ctx ctx in
      if cluster_id == ""
      then done (bad_parameters (Message.text ""))
      else elim (get_start_end_steps_time_from_ctx env.parse_int env.month ctx.query
          default_step_seconds) [
            | none ↦ done (bad_parameters Message.of_error)
            | some (start_time, end_time, step_seconds) ↦
                serve cluster_id start_time end_time step_seconds
          ]
