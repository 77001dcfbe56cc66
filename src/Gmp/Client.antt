-- ===== src/Gmp/Client.antt =====
-- internal/gmp/client.go: Query and parseQueryResponse. JSON, floating point texts and the HTTP
-- transport are parameters: B is a body, R a raw JSON value inside one.
pub mod Answers
pub mod Reads
use Prim.Native.String.{◌++◌ as append}
use gcp_metrics_exporter.Common.{
  ℕ, String, Option, none, some, List, [], ◌∷◌, ◌==◌, nat_eq, if◌then◌else◌,
}
use gcp_metrics_exporter.Common.Int.{ℤ}
use gcp_metrics_exporter.Errors.{api_error, Result, ok, err, annotate}
use gcp_metrics_exporter.Effects.{Io, ◌>>=◌, failing_as}
use gcp_metrics_exporter.Strings.{is_empty}
use gcp_metrics_exporter.Api.Float.{Float64}
use gcp_metrics_exporter.Api.Time.{Time, unix, of_unix}
use gcp_metrics_exporter.Api.Context.{Context}
use gcp_metrics_exporter.Gmp.Clients.{HttpClient}
use gcp_metrics_exporter.Gmp.Collect.{VectorSample}

abbrev pub gmp_base_url : String
gmp_base_url = "https://monitoring.googleapis.com/v1"

-- apiSample; the value is an array of exactly two raw values, null where the JSON has none.
pub record ApiSample (R : Type 0) : Type 0 where
  pub metric : List (String × String)
  pub timestamp : R
  pub value : R

-- apiResponse with its apiData; the result type is not read.
pub record ApiResponse (R : Type 0) : Type 0 where
  pub status : String
  pub error : String
  pub result : List (ApiSample R)

-- json.Unmarshal into the envelope, a float64 and a string, and of the field "error" of an error
-- body ("" where it cannot be read); strconv.ParseFloat, the conversion to int64, and
-- strconv.FormatFloat with no decimals.
pub record Decoding (B R F : Type 0) : Type 0 where
  pub decode_response : B → Result (ApiResponse R)
  pub decode_number : R → Option F
  pub decode_string : R → Option String
  pub decode_error : B → String
  pub parse_float : String → Option F
  pub to_int64 : F → ℤ
  pub format_float : F → String

pub record HttpRequest : Type 0 where
  pub url : String
  pub query_values : List (String × String)

-- The status line, and what io.ReadAll makes of the body.
pub record HttpResponse (B : Type 0) : Type 0 where
  pub status_code : ℕ
  pub status : String
  pub body : Result B

-- http.NewRequestWithContext, which checks the URL, and Client.Do with a token source's transport.
pub record Transport (W B T : Type 0) : Type 0 where
  pub new_request : String → Io W (Unit {0})
  pub send : T → Context → HttpRequest → Io W (HttpResponse B)

abbrev pub query_url : String → String
query_url project =
    append gmp_base_url
      (append "/projects/" (append project "/location/global/prometheus/api/v1/query"))

module _ {B R F : Type 0} (lib : Decoding B R F) where
  -- A sample of the vector; none where one of the three conversions fails.
  unfoldable pub read_sample : ApiSample R → Option (VectorSample F)
  read_sample s = elim (lib.decode_number s.timestamp) [
    | none ↦ none
    | some ts ↦ elim (lib.decode_string s.value) [
      | none ↦ none
      | some digits ↦ elim (lib.parse_float digits) [
        | none ↦ none
        | some v ↦
            some (record { labels = s.metric; value = v; timestamp = of_unix (lib.to_int64 ts) })
      ]
    ]
  ]

  -- The loop over the results.
  unfoldable pub read_samples : List (ApiSample R) → List (VectorSample F)
  read_samples [] = []
  read_samples (s ∷ rest) =
      let later = read_samples rest in elim (read_sample s) [ none ↦ later | some v ↦ v ∷ later ]

  unfoldable pub parse_query_response : B → Result (List (VectorSample F))
  parse_query_response body = elim (annotate "gmp: decode response: " (lib.decode_response body)) [
    | err e ↦ err e
    | ok r ↦
        if r.status == "success" then ok (read_samples r.result) else err (api_error 502 r.error)
  ]

  abbrev pub query_request : Float64 F → String → String → Time → HttpRequest
  query_request fl project query at = record {
    url = query_url project;
    query_values = ("query", query) ∷ (("time", lib.format_float (fl.of_int (unix at))) ∷ []);
  }

  -- The message of an error response: the body's, or else the status line.
  abbrev pub error_message : HttpResponse B → B → String
  error_message resp body =
      if is_empty (lib.decode_error body) then resp.status else lib.decode_error body

  -- What Query makes of a response whose body was read.
  unfoldable pub read_response : HttpResponse B → B → Result (List (VectorSample F))
  unfolding parse_query_response
  read_response resp body =
      if nat_eq resp.status_code 200
      then parse_query_response body
      else err (api_error resp.status_code (error_message resp body))

  module _ {W T : Type 0} (fl : Float64 F) (net : Transport W B T) where
    -- HTTPClient.Query
    unfoldable pub query :
        HttpClient T → Context → String → String → Time → Io W (List (VectorSample F))
    query c ctx project promql at = do
      _ ← failing_as "gmp: build request: " (net.new_request (query_url project))
      resp ←
          failing_as "gmp: HTTP request: "
            (net.send c.source ctx (query_request fl project promql at))
      body ← failing_as "gmp: read response body: " (λ w. (resp.body, w))
      λ w. (read_response resp body, w)
