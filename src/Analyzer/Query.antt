-- ===== src/Analyzer/Query.antt =====
-- pkg/analyzer/query/prom_client.go: the client of the query backend. The HTTP exchange is a parameter,
-- `none` where it or the reading of its body fails, and so is the decoding of a body, whose value is
-- what `json.Unmarshal` has written when it returns.
pub mod Promql
pub mod Selectors
use kubefin.Base.{
  ℕ, String, Bool, not, ◌==◌, string_key, nat_eqb, Option, none, some, List, [], ◌∷◌, ◌++◌,
  if◌then◌else◌,
}
use kubefin.Base.Int.{ℤ}
use Prim.Native.String.{◌++◌ as append}
use kubefin.External.Prometheus.{Labels}

-- `model.SampleStream` and `model.Sample`, with times as `Timestamp.Unix()`
pub record SampleStream (F : Type 0) : Type 0 where
  pub metric : Labels
  pub values : List (ℕ × F)

pub record Sample (F : Type 0) : Type 0 where
  pub metric : Labels
  pub value : F
  pub timestamp : ℕ

pub record Request : Type 0 where
  pub method : String
  pub url : String
  pub query_parameters : List (String × String)
  pub headers : List (String × String)

-- An error, and the result that the message holds. In the source it is a slice of pointers; that no
-- element is null is what the API of Prometheus says of its replies.
pub record Decoded (A : Type 0) : Type 0 where
  pub is_error : Bool
  pub result : List A

pub record PromQueryClient : Type 0 where
  pub endpoint : String
  pub tenant_id : String

-- What the rest of the analyzer calls.
pub record Backend (F : Type 0) : Type 0 where
  pub query_instant : String → Option (List (Sample F))
  pub query_instant_range : String → Option (List (SampleStream F))
  pub query_range_with_step : String → ℤ → ℤ → ℤ → Option (List (SampleStream F))

abbrev pub instant_query_base_url : String
instant_query_base_url = "/api/v1/query"

abbrev pub range_query_base_url : String
range_query_base_url = "/api/v1/query_range"

abbrev pub multi_tenant_header : String
multi_tenant_header = "X-Scope-OrgID"

unfoldable pub with_tenant_id : String → PromQueryClient → PromQueryClient
with_tenant_id id p = record p { tenant_id = id }

abbrev pub tenant_headers : PromQueryClient → List (String × String)
tenant_headers p = if not (p.tenant_id == "") then (multi_tenant_header, p.tenant_id) ∷ [] else []

unfoldable pub instant_request : PromQueryClient → String → String → Request
instant_request p promql time = record {
  method = "POST";
  url = append p.endpoint instant_query_base_url;
  query_parameters = ("query", promql) ∷ (if not (time == "") then ("time", time) ∷ [] else []);
  headers = tenant_headers p;
}

unfoldable pub range_request : (ℤ → String) → PromQueryClient → String → ℤ → ℤ → ℤ → Request
range_request itoa p promql start end step_seconds = record {
  method = "GET";
  url = append p.endpoint range_query_base_url;
  query_parameters =
      ("query", promql)
      ∷ ("start", itoa start)
      ∷ ("end", itoa end)
      ∷ ("step", append (itoa step_seconds) "s")
      ∷ [];
  headers = tenant_headers p;
}

module _ (send : Request → Option (ℕ × String)) where
  -- The status test of the two functions that send a request.
  unfoldable pub body_of : Request → Option String
  body_of request = elim (send request) [
    | none ↦ none
    | some (status, body) ↦ if not (nat_eqb status 200) then none else some body
  ]

  module _ {F : Type 0} (decode_samples : String → Decoded (Sample F)) where
    -- An error of the decoding is logged, and what was decoded is returned.
    unfoldable pub query_instant : PromQueryClient → String → Option (List (Sample F))
    query_instant p promql = elim (body_of (instant_request p promql "")) [
      | none ↦ none
      | some body ↦ some (Decoded.result (decode_samples body))
    ]

    -- Here it is returned.
    unfoldable pub query_instant_with_time :
        (ℤ → String) → PromQueryClient → String → ℤ → Option (List (Sample F))
    query_instant_with_time itoa p promql time =
        elim (body_of (instant_request p promql (itoa time))) [
          | none ↦ none
          | some body ↦
              let message = decode_samples body in
              if message.is_error then none else some message.result
        ]

  module _ {F : Type 0} (decode_streams : String → Decoded (SampleStream F)) where
    unfoldable pub query_instant_range : PromQueryClient → String → Option (List (SampleStream F))
    query_instant_range p promql = elim (body_of (instant_request p promql "")) [
      | none ↦ none
      | some body ↦ some (Decoded.result (decode_streams body))
    ]

    unfoldable pub query_range_with_step :
        (ℤ → String) → PromQueryClient → String → ℤ → ℤ → ℤ → Option (List (SampleStream F))
    query_range_with_step itoa p promql start end step_seconds =
        elim (body_of (range_request itoa p promql start end step_seconds)) [
          | none ↦ none
          | some body ↦ some (Decoded.result (decode_streams body))
        ]
