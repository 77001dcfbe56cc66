-- ===== src/Server/Life/Requests.antt =====
-- A whole request to /metrics, served alone, in the steps of Life (internal/handler with cmd/server/main.go's factories).
use mathlib.Core.List.{lookup}
use gcp_metrics_exporter.Common.{
  Option-cases, String-discrete, ℕ, ◌≡◌, ◌⊎◌, refl, inl, inr, Bool-cases, String,
}
use gcp_metrics_exporter.Common.Int.{pos_part}
use gcp_metrics_exporter.Errors.{Result-cases}
use gcp_metrics_exporter.Api.Time.{Time}
use gcp_metrics_exporter.Api.Context.{Context, request_context, with_timeout}
use gcp_metrics_exporter.Collector.Collect.{collect}
use gcp_metrics_exporter.Collector.Descriptor.{GetDescriptor, descriptor_key, descriptor_name, unit}
use gcp_metrics_exporter.Collector.Params.{QueryParams}
use gcp_metrics_exporter.Collector.Request.{build_request}
use gcp_metrics_exporter.Handler.Gate.{has_room}
use gcp_metrics_exporter.Handler.Limits.{Limits, resolve_limits}
use gcp_metrics_exporter.Handler.Metrics.{
  serve_http, serve_params, respond_error, respond_families, reject_busy, reject_bad,
}
use gcp_metrics_exporter.Handler.Request.{
  Query, RequestParams, accepted, rejected, Parsed, parse_request, query_params,
}
use gcp_metrics_exporter.Server.Config.{Config}
use gcp_metrics_exporter.Server.Wiring.{limits_of}
use gcp_metrics_exporter.Server.Factory.Made.{factory-IsMade, factory_state}
use gcp_metrics_exporter.Server.Factory.{Stores, Imports, collector_of, factory, serve_metrics}
use gcp_metrics_exporter.Server.Life.{get_client, store_unit, elsewhere, Run, stop, more}

pub parsed_cases :
    {A : Type 0} (r : Parsed A)
    → ((a : A) × (r ≡ accepted a)) ⊎ ((msg : String) × ((status : ℕ) × (r ≡ rejected msg status)))
parsed_cases (accepted a) = inl (a, refl)
parsed_cases (rejected msg status) = inr (msg, (status, refl))

module _ {W T C F B R D : Type 0} (imp : Imports W T C F B R D) (cfg : Config) where
  unit-Run :
      (ask : GetDescriptor) (project metric_type : String) (st : Stores W T C)
      → Run imp cfg st
          (record st { descriptors = (unit imp.sdk ask project metric_type st.descriptors).1 })
  unfolding unit
  unit-Run ask project metric_type st =
      let key = descriptor_key project metric_type in
      elim (Option-cases (lookup String-discrete key st.descriptors)) [
        | inr (u, cached) ↦ rw (unit, cached) stop
        | inl missing ↦
            rw (unit, missing)
              (more stop (store_unit key (ask (descriptor_name project metric_type))))
      ]

  collect-Run :
      (client : C) (ctx : Context) (p : QueryParams) (st : Stores W T C)
      → Run imp cfg st (((collector_of imp cfg client).collect ctx p st).1)
  unfolding collector_of collect
  collect-Run client ctx p st =
      elim (Result-cases (build_request imp.sdk imp.lib (imp.upstream.now st.outside) p)) [
        | inr (e, k) ↦
            rw (k, collect) (more stop (elsewhere (imp.upstream.after client p st.outside)))
        | inl (req, k) ↦
            rw (k, collect)
              (more
                (unit-Run ((imp.upstream.metric_client client st.outside).get_metric_descriptor ctx)
                  p.project_id p.metric_type st)
                (elsewhere (imp.upstream.after client p st.outside)))
      ]

  pub run_then : {a b c : Stores W T C} → Run imp cfg a b → Run imp cfg b c → Run imp cfg a c
  run_then r stop = r
  run_then r (more s step) = more (run_then r s) step

  serve_params-Run :
      (limits : Limits) (now : ℕ → Time) (p : RequestParams) (st : Stores W T C)
      → Run imp cfg st
          ((serve_params imp.sdk imp.lib imp.encoder limits (factory imp cfg) now p st).world)
  unfolding serve_params respond_error respond_families
  serve_params-Run limits now p st =
      let ctx : Context = with_timeout request_context limits.scrape_timeout in
      let sa = p.impersonate_sa in
      let got : Run imp cfg st ((factory imp cfg ctx sa st).1) =
        rw (factory_state imp cfg ctx sa st) (more stop (get_client ctx sa)) in
      elim (Result-cases ((factory imp cfg ctx sa st).0)) [
        | inr (e, k) ↦ rw (serve_params, k) got
        | inl (c, k) ↦
            let m = factory-IsMade imp cfg ctx sa st c k in
            let st' = (factory imp cfg ctx sa st).1 in
            let whole : Run imp cfg st ((c.collect ctx (query_params p) st').1) =
              run_then got (rw m.wrapped (collect-Run m.client ctx (query_params p) st')) in
            elim (Result-cases ((c.collect ctx (query_params p) st').0)) [
              | inr (e, l) ↦ rw (serve_params, k, l) whole
              | inl (fams, l) ↦ rw (serve_params, k, l) whole
            ]
      ]

  -- A request to /metrics, whatever it is answered, changes the caches and the world by atomic steps
  -- of Life only.
  pub serve_metrics-Run :
      (now : ℕ → Time) (in_flight : ℕ) (q : Query) (st : Stores W T C)
      → Run imp cfg st ((serve_metrics imp cfg now in_flight q st).world)
  unfolding serve_http reject_busy reject_bad
  serve_metrics-Run now in_flight q st =
      let limits = resolve_limits (limits_of cfg) in
      elim (Bool-cases (has_room (pos_part limits.max_concurrent) in_flight)) [
        | inr full ↦ rw (serve_http, full) stop
        | inl room ↦ elim (parsed_cases (parse_request imp.lib limits q)) [
          | inr (msg, (status, e)) ↦ rw (serve_http, room, e) stop
          | inl (p, e) ↦ rw (serve_http, room, e) (serve_params-Run limits now p st)
        ]
      ]
