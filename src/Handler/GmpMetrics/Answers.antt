-- ===== src/Handler/GmpMetrics/Answers.antt =====
-- When GMPHandler.ServeHTTP answers 200, and what it answers otherwise
-- (internal/handler/gmp_handler.go).
use gcp_metrics_exporter.Common.{
  ℕ, ◌≤◌, ◌<◌, ◌≡◌, inl, inr, refl, String, List, ltb, ltb→lt, Bool-cases, String-discrete, arith,
}
use gcp_metrics_exporter.Common.Int.{pos_part, ◌-ℤ◌}
use gcp_metrics_exporter.Errors.{Result-cases, Error, ok, err}
use gcp_metrics_exporter.Api.Time.{Time}
use gcp_metrics_exporter.Api.Context.{Context, request_context, with_timeout}
use gcp_metrics_exporter.Api.Prom.{MetricFamily}
use gcp_metrics_exporter.Api.Sdk.{GoLib}
use gcp_metrics_exporter.Families.Distinct.{distinct}
use gcp_metrics_exporter.Families.FamilyOf.{sample_keys}
use gcp_metrics_exporter.Gmp.Collect.{VectorSample, collect_vector}
use gcp_metrics_exporter.Gmp.Collect.Names.{named_samples, grouped, collect_vector-IsDistinct}
use gcp_metrics_exporter.Handler.Http.{Value, write_json_error}
use gcp_metrics_exporter.Handler.Limits.{Limits}
use gcp_metrics_exporter.Handler.GmpError.{map_api_status, map_gmp_error}
use gcp_metrics_exporter.Handler.Metrics.{Encoder, wire_status}
use gcp_metrics_exporter.Handler.Metrics.Answers.{IsRefusal, Answer, served, refused, not_both}
use gcp_metrics_exporter.Handler.Request.{Query, accepted}
use gcp_metrics_exporter.Handler.Request.Steps.{accepts, refuses}
use gcp_metrics_exporter.Handler.GmpRequest.{GmpRequestParams, parse_gmp_request}
use gcp_metrics_exporter.Handler.GmpRequest.Accepts.{parse_gmp_request-Verdict}
use gcp_metrics_exporter.Handler.GmpMetrics.{
  GmpClient, GmpClientForSa, respond_gmp_error, gmp_reject_busy, gmp_reject_bad,
  gmp_respond_families, gmp_serve_params, gmp_serve_http,
}

map_gmp_error_bounds : (e : Error) → 400 ≤ (map_gmp_error e).status
unfolding map_gmp_error map_api_status
map_gmp_error_bounds e = ground arith

respond_gmp_error-IsRefusal :
    {W F : Type 0} (e : Error) (attrs : List (String × Value)) (w : W)
    → IsRefusal {F = F} ((respond_gmp_error {W = W} e attrs w).response)
unfolding respond_gmp_error write_json_error wire_status
respond_gmp_error-IsRefusal e attrs w =
    let b = map_gmp_error_bounds e in
    record { failed = ground arith; standard = ground arith; json = (_, refl) }

collect_vector-err : {F : Type 0} (e : Error) → collect_vector {F = F} (err e) ≡ err e
unfolding collect_vector
collect_vector-err e = refl

-- The families of a vector, one for each exported name.
abbrev pub vector_families : {F : Type 0} → List (VectorSample F) → List (MetricFamily F)
vector_families samples =
    grouped (named_samples samples) (distinct String-discrete (sample_keys (named_samples samples)))

module _ {W F : Type 0} (limits : Limits) (client_for_sa : GmpClientForSa W F)
    (now : ℕ → Time) where
  -- The factory makes a client, and the query, at the clock's moment less the offset, gives samples.
  pub record IsGmpRun (p : GmpRequestParams) (w : W) (families : List (MetricFamily F))
      : Type 0 where
    pub client : GmpClient W F
    pub made :
        (client_for_sa (with_timeout request_context limits.scrape_timeout) p.impersonate_sa w).0
        ≡ ok client
    pub samples : List (VectorSample F)
    pub answered :
        (client.query
          (with_timeout request_context limits.scrape_timeout)
          p.project
          p.query
          (now 1 -ℤ p.time_offset)
          ((client_for_sa
            (with_timeout request_context limits.scrape_timeout)
            p.impersonate_sa
            w).1)).0
        ≡ ok samples
    pub found : families ≡ vector_families samples

  module _ (lib : GoLib) (enc : Encoder F) where
    gmp_serve_params-Answer :
        (p : GmpRequestParams) (w : W)
        → Answer enc
            (IsGmpRun p w)
            ((gmp_serve_params lib enc limits client_for_sa now p w).response)
    unfolding gmp_serve_params gmp_respond_families
    gmp_serve_params-Answer p w =
        let ctx : Context = with_timeout request_context limits.scrape_timeout in
        let made = client_for_sa ctx p.impersonate_sa w in
        elim (Result-cases (made.0)) [
          | inr (e, h) ↦
              refused (λ families run. not_both run.made h)
                (rw (gmp_serve_params, h) (respond_gmp_error-IsRefusal _ _ _))
          | inl (c, h) ↦
              elim (Result-cases
                ((c.query ctx p.project p.query (now 1 -ℤ p.time_offset) (made.1)).0)) [
                  | inr (e, k) ↦
                      refused
                        (λ families run.
                          let same : run.client ≡ c = cc in
                          not_both {e = e} run.answered (rw same k))
                        (rw (gmp_serve_params, h, k, collect_vector-err {F = F} e)
                          (respond_gmp_error-IsRefusal e _ _))
                  | inl (samples, k) ↦
                      let all = (collect_vector-IsDistinct samples).0 in
                      served (vector_families samples)
                        (record {
                          client = c;
                          made = h;
                          samples = samples;
                          answered = k;
                          found = refl;
                        })
                        (rw (gmp_serve_params, h, k, all) refl)
                        (rw (gmp_serve_params, h, k, all) refl)
                ]
        ]

    -- GMPHandler.ServeHTTP answers 200 exactly when a place in the semaphore is free, the query is
    -- accepted, the factory makes a client and the instant query, at the clock's moment less the
    -- offset, gives samples; the body is then the families of those samples, one for each exported
    -- name, up to the first that cannot be encoded. In every other case the answer is a JSON error
    -- with a status of 400 or more, and never the non-standard 499.
    pub gmp_serve_http-Answer :
        (in_flight : ℕ) (q : Query) (w : W)
        → Answer enc
            (λ families.
              (in_flight < pos_part limits.max_concurrent)
              × ((p : GmpRequestParams) × ((parse_gmp_request lib limits q ≡ accepted p)
                    × IsGmpRun p w families)))
            ((gmp_serve_http lib enc limits client_for_sa now in_flight q w).response)
    unfolding gmp_serve_http gmp_reject_bad gmp_reject_busy write_json_error
    gmp_serve_http-Answer in_flight q w =
        elim (Bool-cases (ltb in_flight (pos_part limits.max_concurrent))) [
          | inr full ↦
              refused (λ families h. ground arith)
                (rw full
                  (record { failed = ground arith; standard = ground arith; json = (_, refl) }))
          | inl room ↦ elim (parse_gmp_request-Verdict lib limits q) [
            | refuses bad msg e ↦
                refused
                  (λ families h.
                    let e' : parse_gmp_request lib limits q ≡ accepted (h.1.0) = h.1.1.0 in
                    absurd (ground arith))
                  (rw (room, e)
                    (record { failed = ground arith; standard = ground arith; json = (_, refl) }))
            | accepts _ p e _ ↦ elim (gmp_serve_params-Answer p w) [
              | served families run s b ↦
                  served families (ltb→lt _ _ room, (p, (e, run))) (rw (room, e) s) (rw (room, e) b)
              | refused fail r ↦
                  refused
                    (λ families h.
                      let same : h.1.0 ≡ p =
                        (let e' : parse_gmp_request lib limits q ≡ accepted (h.1.0) = h.1.1.0 in
                          cc) in
                      fail families (rw (← same) (h.1.1.1)))
                    (rw (room, e) r)
            ]
          ]
        ]
