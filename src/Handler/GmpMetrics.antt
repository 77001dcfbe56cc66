-- ===== src/Handler/GmpMetrics.antt =====
-- internal/handler/gmp_handler.go: GMPHandler.ServeHTTP and respondGMPError. The factory of clients and
-- the clients it makes read and change a world W; `now k` is the k-th reading of the handler's clock.
pub mod Answers
use gcp_metrics_exporter.Common.{ℕ, String, Option, none, some, List, [], ◌∷◌, ◌++◌, if◌then◌else◌}
use gcp_metrics_exporter.Common.Int.{ℤ, pos_part, ◌-ℤ◌}
use gcp_metrics_exporter.Errors.{Error, wrap, Result, ok, err}
use gcp_metrics_exporter.Api.Time.{Time}
use gcp_metrics_exporter.Api.Context.{Context, request_context, with_timeout}
use gcp_metrics_exporter.Api.Prom.{MetricFamily}
use gcp_metrics_exporter.Api.Sdk.{GoLib}
use gcp_metrics_exporter.Gmp.Collect.{VectorSample, collect_vector}
use gcp_metrics_exporter.Handler.Gate.{has_room}
use gcp_metrics_exporter.Handler.Http.{
  exposition, level_info, level_error, Value, string, int, LogLine, content_type, write_json_error,
  elapsed_ms,
}
use gcp_metrics_exporter.Handler.Limits.{Limits}
use gcp_metrics_exporter.Handler.GmpError.{map_gmp_error}
use gcp_metrics_exporter.Handler.Metrics.{
  Outcome, Encoder, num, too_many_requests, wire_status, write_families,
}
use gcp_metrics_exporter.Handler.Request.{Query, accepted, rejected}
use gcp_metrics_exporter.Handler.GmpRequest.{GmpRequestParams, parse_gmp_request}

-- gmp.Client
pub record GmpClient (W F : Type 0) : Type 0 where
  pub query : Context → String → String → Time → W → Result (List (VectorSample F)) × W

-- GMPClientForSA
abbrev pub GmpClientForSa : (W F : Type 0) → Type 0
GmpClientForSa W F = Context → String → W → Result (GmpClient W F) × W

unfoldable pub respond_gmp_error : {W F : Type 0} → Error → List (String × Value) → W → Outcome W F
respond_gmp_error e attrs w =
    let m = map_gmp_error e in
    record {
      response = write_json_error m.headers (wire_status m.status) m.msg;
      logs =
          record {
            level = elim m.level [ level_error ↦ level_error | _ ↦ level_info ];
            msg = "gmp-metrics request failed";
            attrs =
                attrs
                ++ (("status", num m.status)
                    ∷ (("series_count", num 0)
                        ∷ (("error_code", string m.err_code)
                            ∷ (("error_msg", string m.msg) ∷ []))));
          }
          ∷ [];
      world = w;
    }

unfoldable pub gmp_reject_busy : {W F : Type 0} → Limits → W → Outcome W F
gmp_reject_busy limits w = record {
  response =
      write_json_error (("Retry-After", "1") ∷ []) too_many_requests "too many concurrent scrapes";
  logs =
      record {
        level = level_info;
        msg = "gmp-metrics request rejected";
        attrs =
            ("reason", string "concurrency_limit")
            ∷ (("status", num too_many_requests)
                ∷ (("max_concurrent", int limits.max_concurrent) ∷ []));
      }
      ∷ [];
  world = w;
}

unfoldable pub gmp_reject_bad : {W F : Type 0} → String → ℕ → W → Outcome W F
gmp_reject_bad msg status w = record {
  response = write_json_error [] status msg;
  logs =
      record {
        level = level_info;
        msg = "gmp-metrics request rejected";
        attrs =
            ("reason", string "bad_request")
            ∷ (("status", num status) ∷ (("error_msg", string msg) ∷ []));
      }
      ∷ [];
  world = w;
}

abbrev pub gmp_attrs : GmpRequestParams → List (String × Value)
gmp_attrs p = ("project", string p.project) ∷ (("impersonate_sa", string p.impersonate_sa) ∷ [])

unfoldable pub gmp_respond_families :
    {W F : Type 0} → Encoder F → GmpRequestParams → ℤ → ℤ → List (MetricFamily F) → W → Outcome W F
gmp_respond_families enc p gmp_latency total_latency families w =
    let written = write_families enc families in
    let done : LogLine = record {
      level = level_info;
      msg = "gmp-metrics request";
      attrs =
          gmp_attrs p
          ++ (("status", num 200)
              ∷ (("series_count", num written.series_count)
                  ∷ (("gmp_latency_ms", int gmp_latency)
                      ∷ (("total_latency_ms", int total_latency) ∷ []))));
    } in
    record {
      response = record {
        status = 200;
        headers = content_type enc.mime ∷ [];
        body = exposition written.families;
      };
      logs = elim written.failure [
        | none ↦ done ∷ []
        | some e ↦
            record {
              level = level_error;
              msg = "gmp-metrics encode failed mid-stream";
              attrs = ("project", string p.project) ∷ (("err", string (enc.message e)) ∷ []);
            }
            ∷ (done ∷ [])
      ];
      world = w;
    }

module _ {W F : Type 0} (lib : GoLib) (enc : Encoder F) (limits : Limits) where
  module _ (client_for_sa : GmpClientForSa W F) (now : ℕ → Time) where
    -- A request that passed the gate and the parser. The query's moment is the second reading.
    unfoldable pub gmp_serve_params : GmpRequestParams → W → Outcome W F
    gmp_serve_params p w =
        let ctx = with_timeout request_context limits.scrape_timeout in
        let made = client_for_sa ctx p.impersonate_sa w in
        elim (made.0) [
          | err e ↦
              respond_gmp_error (wrap "handler: build gmp client: " e "")
                (gmp_attrs p ++ ("total_latency_ms", int (elapsed_ms (now 1) (now 0))) ∷ [])
                (made.1)
          | ok c ↦
              let at = now 1 -ℤ p.time_offset in
              let got = c.query ctx p.project p.query at (made.1) in
              let gmp_latency = elapsed_ms (now 3) (now 2) in
              let total_latency = elapsed_ms (now 4) (now 0) in
              elim (collect_vector (got.0)) [
                | err e ↦
                    respond_gmp_error e
                      (gmp_attrs p
                        ++ (("gmp_latency_ms", int gmp_latency)
                            ∷ (("total_latency_ms", int total_latency) ∷ [])))
                      (got.1)
                | ok families ↦
                    gmp_respond_families enc p gmp_latency total_latency families (got.1)
              ]
        ]

    -- ServeHTTP for a request that finds `in_flight` requests in the semaphore.
    unfoldable pub gmp_serve_http : ℕ → Query → W → Outcome W F
    gmp_serve_http in_flight q w =
        if has_room (pos_part limits.max_concurrent) in_flight
        then elim (parse_gmp_request lib limits q) [
          | rejected msg status ↦ gmp_reject_bad msg status w
          | accepted p ↦ gmp_serve_params p w
        ]
        else gmp_reject_busy limits w
