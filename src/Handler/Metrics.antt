-- ===== src/Handler/Metrics.antt =====
-- internal/handler/handler.go: MetricsHandler.ServeHTTP and respondError. The factory of collectors and
-- the collectors it makes are the handler's seam: they read and change a world W, which holds the
-- caches, the upstream and their clock. `now k` is the k-th reading of the handler's own clock.
pub mod Answers
use gcp_metrics_exporter.Common.{
  ℕ, ◌+◌, String, Bool, true, false, Option, none, some, List, [], ◌∷◌, ◌++◌, length, nat_eq, ltb,
  if◌then◌else◌,
}
use gcp_metrics_exporter.Common.Int.{ℤ, pos, pos_part}
use gcp_metrics_exporter.Errors.{Error, wrap, Result, ok, err}
use gcp_metrics_exporter.Api.Time.{Time}
use gcp_metrics_exporter.Api.Context.{Context, request_context, with_timeout}
use gcp_metrics_exporter.Api.Prom.{MetricFamily}
use gcp_metrics_exporter.Api.Sdk.{Sdk, GoLib}
use gcp_metrics_exporter.Collector.Params.{QueryParams}
use gcp_metrics_exporter.Handler.Gate.{has_room}
use gcp_metrics_exporter.Handler.Http.{
  Body, json_error, exposition, Response, Level, level_info, level_error, Value, string, int,
  LogLine, content_type, write_json_error, filter_fingerprint, byte_len, elapsed_ms,
}
use gcp_metrics_exporter.Handler.Limits.{Limits}
use gcp_metrics_exporter.Handler.MapError.{Mapped, client_closed, map_error}
use gcp_metrics_exporter.Handler.Request.{
  Query, RequestParams, Parsed, accepted, rejected, parse_request, query_params,
}

-- collector.Collector
pub record CollectorOf (W F : Type 0) : Type 0 where
  pub collect : Context → QueryParams → W → Result (List (MetricFamily F)) × W

-- CollectorForSA
abbrev pub CollectorForSa : (W F : Type 0) → Type 0
CollectorForSa W F = Context → String → W → Result (CollectorOf W F) × W

-- A request's response, its log lines in order, and the world after it.
pub record Outcome (W F : Type 0) : Type 0 where
  pub response : Response F
  pub logs : List LogLine
  pub world : W

abbrev pub too_many_requests : ℕ
too_many_requests = 429

abbrev pub request_timeout : ℕ
request_timeout = 408

abbrev pub num : ℕ → Value
num n = int (pos n)

unfoldable pub wire_status : ℕ → ℕ
wire_status status = if nat_eq status client_closed then request_timeout else status

-- expfmt's text format: its media type and its encoder, which gives the error it met; and the text of an error.
pub record Encoder (F : Type 0) : Type 0 where
  pub mime : String
  pub encode : MetricFamily F → Option Error
  pub message : Error → String

-- The loop's families written, its count of series, and the error that ended it early.
pub record Written (F : Type 0) : Type 0 where
  pub families : List (MetricFamily F)
  pub series_count : ℕ
  pub failure : Option Error

unfoldable pub write_families : {F : Type 0} → Encoder F → List (MetricFamily F) → Written F
write_families enc [] = record { families = []; series_count = 0; failure = none }
write_families enc (mf ∷ mfs) =
    let rest = write_families enc mfs in
    elim (enc.encode mf) [
      | some e ↦ record { families = []; series_count = length mf.metric; failure = some e }
      | none ↦ record rest {
        families = mf ∷ rest.families;
        series_count = length mf.metric + rest.series_count;
      }
    ]

unfoldable pub respond_error :
    {W F : Type 0} → Sdk → Error → List (String × Value) → W → Outcome W F
respond_error sdk e attrs w =
    let m = map_error sdk e in
    record {
      response = write_json_error m.headers (wire_status m.status) m.msg;
      logs =
          record {
            level = elim m.level [ level_error ↦ level_error | _ ↦ level_info ];
            msg = "metrics request failed";
            attrs =
                attrs
                ++ (("status", num m.status)
                    ∷ (("series_count", num 0)
                        ∷ (("error_code", string m.err_code)
                            ∷ (("error_msg", string m.msg) ∷ []))));
          }
          ∷ [];
      world = w;
    }

-- The answer when the concurrency gate is full.
unfoldable pub reject_busy : {W F : Type 0} → Limits → W → Outcome W F
reject_busy limits w = record {
  response =
      write_json_error (("Retry-After", "1") ∷ []) too_many_requests "too many concurrent scrapes";
  logs =
      record {
        level = level_info;
        msg = "metrics request rejected";
        attrs =
            ("reason", string "concurrency_limit")
            ∷ (("status", num too_many_requests)
                ∷ (("max_concurrent", int limits.max_concurrent) ∷ []));
      }
      ∷ [];
  world = w;
}

unfoldable pub reject_bad : {W F : Type 0} → String → ℕ → W → Outcome W F
reject_bad msg status w = record {
  response = write_json_error [] status msg;
  logs =
      record {
        level = level_info;
        msg = "metrics request rejected";
        attrs =
            ("reason", string "bad_request")
            ∷ (("status", num status) ∷ (("error_msg", string msg) ∷ []));
      }
      ∷ [];
  world = w;
}

abbrev pub request_attrs : GoLib → RequestParams → List (String × Value)
request_attrs lib p =
    ("project", string p.project)
    ∷ (("metric_type", string p.metric_type)
        ∷ (("impersonate_sa", string p.impersonate_sa)
            ∷ (("filter_fingerprint", string (filter_fingerprint lib p.filter))
                ∷ (("filter_len", num (byte_len p.filter)) ∷ []))))

-- The success path, once the families are there.
unfoldable pub respond_families :
    {W F : Type 0}
    → Encoder F
    → GoLib
    → RequestParams
    → ℤ
    → ℤ
    → List (MetricFamily F)
    → W
    → Outcome W F
respond_families enc lib p gcp_latency total_latency families w =
    let written = write_families enc families in
    let done : LogLine = record {
      level = level_info;
      msg = "metrics request";
      attrs =
          request_attrs lib p
          ++ (("status", num 200)
              ∷ (("series_count", num written.series_count)
                  ∷ (("gcp_latency_ms", int gcp_latency)
                      ∷ (("total_latency_ms", int total_latency) ∷ []))));
    } in
    record {
      response = record {
        status = 200;
        headers = content_type enc.mime ∷ [];
        body = exposition written.families;
      };
      logs = elim written.failure [
        | none ↦ done ∷ []
        | some e ↦
            record {
              level = level_error;
              msg = "metrics encode failed mid-stream";
              attrs =
                  ("project", string p.project)
                  ∷ (("metric_type", string p.metric_type)
                      ∷ (("err", string (enc.message e)) ∷ []));
            }
            ∷ (done ∷ [])
      ];
      world = w;
    }

module _ {W F : Type 0} (sdk : Sdk) (lib : GoLib) (enc : Encoder F) (limits : Limits) where
  module _ (collector_for_sa : CollectorForSa W F) (now : ℕ → Time) where
    -- A request that passed the gate and the parser.
    unfoldable pub serve_params : RequestParams → W → Outcome W F
    serve_params p w =
        let ctx = with_timeout request_context limits.scrape_timeout in
        let made = collector_for_sa ctx p.impersonate_sa w in
        elim (made.0) [
          | err e ↦
              respond_error sdk (wrap "handler: build collector: " e "")
                (request_attrs lib p ++ ("total_latency_ms", int (elapsed_ms (now 1) (now 0))) ∷ [])
                (made.1)
          | ok c ↦
              let got = c.collect ctx (query_params p) (made.1) in
              let gcp_latency = elapsed_ms (now 2) (now 1) in
              let total_latency = elapsed_ms (now 3) (now 0) in
              elim (got.0) [
                | err e ↦
                    respond_error sdk e
                      (request_attrs lib p
                        ++ (("gcp_latency_ms", int gcp_latency)
                            ∷ (("total_latency_ms", int total_latency) ∷ [])))
                      (got.1)
                | ok families ↦
                    respond_families enc lib p gcp_latency total_latency families (got.1)
              ]
        ]

    -- ServeHTTP for a request that finds `in_flight` requests in the semaphore.
    unfoldable pub serve_http : ℕ → Query → W → Outcome W F
    serve_http in_flight q w =
        if has_room (pos_part limits.max_concurrent) in_flight
        then elim (parse_request lib limits q) [
          | rejected msg status ↦ reject_bad msg status w
          | accepted p ↦ serve_params p w
        ]
        else reject_busy limits w
