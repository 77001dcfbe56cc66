-- ===== src/Handler/Metrics/Answers.antt =====
-- When ServeHTTP answers 200, and what it answers otherwise (internal/handler/handler.go).
use gcp_metrics_exporter.Common.{
  ℕ, ◌≤◌, ◌<◌, ◌≡◌, inl, inr, refl, String, List, ltb, ltb→lt, Bool-cases, arith,
}
use gcp_metrics_exporter.Common.Int.{pos_part}
use gcp_metrics_exporter.Errors.{Result-cases, Error, Result, ok, err}
use gcp_metrics_exporter.Api.Time.{Time}
use gcp_metrics_exporter.Api.Context.{Context, request_context, with_timeout}
use gcp_metrics_exporter.Api.Prom.{MetricFamily}
use gcp_metrics_exporter.Api.Sdk.{Sdk, GoLib}
use gcp_metrics_exporter.Handler.Http.{Value, json_error, exposition, Response, write_json_error}
use gcp_metrics_exporter.Handler.Limits.{Limits}
use gcp_metrics_exporter.Handler.MapError.{map_code, map_error}
use gcp_metrics_exporter.Handler.Metrics.{
  CollectorOf, CollectorForSa, Encoder, wire_status, write_families, respond_error, reject_busy,
  reject_bad, respond_families, serve_params, serve_http,
}
use gcp_metrics_exporter.Handler.Request.{
  Query, RequestParams, accepted, parse_request, query_params,
}
use gcp_metrics_exporter.Handler.Request.Accepts.{parse_request-Verdict}
use gcp_metrics_exporter.Handler.Request.Steps.{accepts, refuses}

-- A JSON error with a status of 400 or more that is not 499.
pub record IsRefusal {F : Type 0} (r : Response F) : Type 0 where
  pub failed : 400 ≤ r.status
  pub standard : ¬ (r.status ≡ 499)
  pub json : (msg : String) × (r.body ≡ json_error msg)

map_code_bounds : (sdk : Sdk) (e : Error) → 400 ≤ (map_error sdk e).status
unfolding map_error map_code
map_code_bounds sdk e = ground arith

respond_error-IsRefusal :
    {W F : Type 0} (sdk : Sdk) (e : Error) (attrs : List (String × Value)) (w : W)
    → IsRefusal {F = F} ((respond_error {W = W} sdk e attrs w).response)
unfolding respond_error write_json_error wire_status
respond_error-IsRefusal sdk e attrs w =
    let b = map_code_bounds sdk e in
    record { failed = ground arith; standard = ground arith; json = (_, refl) }

-- The families that were asked for, if they could be had, or a refusal.
pub data Answer {F : Type 0} (enc : Encoder F) (S : List (MetricFamily F) → Type 0) (r : Response F)
    : Type 0 where
  served :
      (families : List (MetricFamily F))
      → S families
      → r.status ≡ 200
      → r.body ≡ exposition ((write_families enc families).families)
      → Answer enc S r
  refused : ((families : List (MetricFamily F)) → ¬ S families) → IsRefusal r → Answer enc S r

pub not_both : {A : Type 0} {r : Result A} {a : A} {e : Error} → r ≡ ok a → ¬ (r ≡ err e)
not_both h k = ground arith

module _ {W F : Type 0} (limits : Limits) (collector_for_sa : CollectorForSa W F) where
  -- The factory makes a collector, and the collector finds the families.
  pub record IsRun (p : RequestParams) (w : W) (families : List (MetricFamily F)) : Type 0 where
    pub collector : CollectorOf W F
    pub made :
        (collector_for_sa (with_timeout request_context limits.scrape_timeout) p.impersonate_sa w).0
        ≡ ok collector
    pub collected :
        (collector.collect (with_timeout request_context limits.scrape_timeout) (query_params p) (
          (collector_for_sa
            (with_timeout request_context limits.scrape_timeout)
            p.impersonate_sa
            w).1)).0
        ≡ ok families

  module _ (sdk : Sdk) (lib : GoLib) (enc : Encoder F) (now : ℕ → Time) where
    serve_params-Answer :
        (p : RequestParams) (w : W)
        → Answer enc
            (IsRun p w)
            ((serve_params sdk lib enc limits collector_for_sa now p w).response)
    unfolding serve_params respond_families
    serve_params-Answer p w =
        let ctx : Context = with_timeout request_context limits.scrape_timeout in
        let made = collector_for_sa ctx p.impersonate_sa w in
        elim (Result-cases (made.0)) [
          | inr (e, h) ↦
              refused (λ families run. not_both run.made h)
                (rw (serve_params, h) (respond_error-IsRefusal sdk _ _ _))
          | inl (c, h) ↦ elim (Result-cases ((c.collect ctx (query_params p) (made.1)).0)) [
            | inr (e, k) ↦
                refused
                  (λ families run.
                    let same : run.collector ≡ c = cc in not_both {e = e} run.collected (rw same k))
                  (rw (serve_params, h, k) (respond_error-IsRefusal sdk _ _ _))
            | inl (families, k) ↦
                served families (record { collector = c; made = h; collected = k })
                  (rw (serve_params, h, k) refl) (rw (serve_params, h, k) refl)
          ]
        ]

    -- ServeHTTP answers 200 exactly when a place in the semaphore is free, the query is accepted, the
    -- factory makes a collector and that collector finds families under the scrape deadline; the
    -- body is then those families, up to the first that cannot be encoded. In every other case the
    -- answer is a JSON error with a status of 400 or more, and never the non-standard 499.
    pub serve_http-Answer :
        (in_flight : ℕ) (q : Query) (w : W)
        → Answer enc
            (λ families.
              (in_flight < pos_part limits.max_concurrent)
              × ((p : RequestParams) × ((parse_request lib limits q ≡ accepted p)
                    × IsRun p w families)))
            ((serve_http sdk lib enc limits collector_for_sa now in_flight q w).response)
    unfolding serve_http reject_bad reject_busy write_json_error
    serve_http-Answer in_flight q w =
        elim (Bool-cases (ltb in_flight (pos_part limits.max_concurrent))) [
          | inr full ↦
              refused (λ families h. ground arith)
                (rw full
                  (record { failed = ground arith; standard = ground arith; json = (_, refl) }))
          | inl room ↦ elim (parse_request-Verdict lib limits q) [
            | refuses bad msg e ↦
                refused
                  (λ families h.
                    let e' : parse_request lib limits q ≡ accepted (h.1.0) = h.1.1.0 in
                    absurd (ground arith))
                  (rw (room, e)
                    (record { failed = ground arith; standard = ground arith; json = (_, refl) }))
            | accepts _ p e _ ↦ elim (serve_params-Answer p w) [
              | served families run s b ↦
                  served families (ltb→lt _ _ room, (p, (e, run))) (rw (room, e) s) (rw (room, e) b)
              | refused fail r ↦
                  refused
                    (λ families h.
                      let same : h.1.0 ≡ p =
                        (let e' : parse_request lib limits q ≡ accepted (h.1.0) = h.1.1.0 in cc) in
                      fail families (rw (← same) (h.1.1.1)))
                    (rw (room, e) r)
            ]
          ]
        ]
