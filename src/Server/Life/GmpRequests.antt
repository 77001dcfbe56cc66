-- ===== src/Server/Life/GmpRequests.antt =====
-- A whole request to /gmp-metrics, served alone, in the steps of Life
-- (internal/handler/gmp_handler.go with cmd/server/main.go's factory).
use gcp_metrics_exporter.Common.{ℕ, inl, inr, Bool-cases, String}
use gcp_metrics_exporter.Common.Int.{pos_part, ◌-ℤ◌}
use gcp_metrics_exporter.Errors.{Result-cases}
use gcp_metrics_exporter.Api.Time.{Time}
use gcp_metrics_exporter.Api.Context.{Context, request_context, with_timeout}
use gcp_metrics_exporter.Gmp.Clients.{HttpClient}
use gcp_metrics_exporter.Gmp.Collect.{collect_vector}
use gcp_metrics_exporter.Handler.Gate.{has_room}
use gcp_metrics_exporter.Handler.GmpMetrics.{
  gmp_serve_http, gmp_serve_params, respond_gmp_error, gmp_respond_families, gmp_reject_busy,
  gmp_reject_bad,
}
use gcp_metrics_exporter.Handler.GmpRequest.{GmpRequestParams, parse_gmp_request}
use gcp_metrics_exporter.Handler.Limits.{Limits, resolve_gmp_limits}
use gcp_metrics_exporter.Handler.Request.{Query}
use gcp_metrics_exporter.Server.Config.{Config}
use gcp_metrics_exporter.Server.Wiring.{limits_of}
use gcp_metrics_exporter.Server.Factory.{Stores, Imports, client_of, gmp_factory, serve_gmp_metrics}
use gcp_metrics_exporter.Server.Factory.Made.{gmp_factory-IsGmpMade, gmp_factory_state}
use gcp_metrics_exporter.Server.Life.{get_http_client, elsewhere, Run, stop, more}
use gcp_metrics_exporter.Server.Life.Requests.{parsed_cases, run_then}

module _ {W T C F B R D : Type 0} (imp : Imports W T C F B R D) (cfg : Config) where
  client_of-Run :
      (client : HttpClient T) (ctx : Context) (project promql : String) (at : Time)
      (st : Stores W T C)
      → Run imp cfg st (((client_of imp cfg client).query ctx project promql at st).1)
  unfolding client_of
  client_of-Run client ctx project promql at st = more stop (elsewhere _)

  gmp_serve_params-Run :
      (limits : Limits) (now : ℕ → Time) (p : GmpRequestParams) (st : Stores W T C)
      → Run imp cfg st
          ((gmp_serve_params imp.lib imp.encoder limits (gmp_factory imp cfg) now p st).world)
  unfolding gmp_serve_params respond_gmp_error gmp_respond_families
  gmp_serve_params-Run limits now p st =
      let ctx : Context = with_timeout request_context limits.scrape_timeout in
      let sa = p.impersonate_sa in
      let moment = now 1 -ℤ p.time_offset in
      let st' = (gmp_factory imp cfg ctx sa st).1 in
      let got : Run imp cfg st st' =
        rw (gmp_factory_state imp cfg ctx sa st) (more stop (get_http_client ctx sa)) in
      elim (Result-cases ((gmp_factory imp cfg ctx sa st).0)) [
        | inr (e, k) ↦ rw (gmp_serve_params, k) got
        | inl (c, k) ↦
            let m = gmp_factory-IsGmpMade imp cfg ctx sa st c k in
            let whole : Run imp cfg st ((c.query ctx p.project p.query moment st').1) =
              run_then imp cfg got
                (rw m.wrapped (client_of-Run m.client ctx p.project p.query moment st')) in
            elim (Result-cases (collect_vector ((c.query ctx p.project p.query moment st').0))) [
              | inr (e, l) ↦ rw (gmp_serve_params, k, l) whole
              | inl (fams, l) ↦ rw (gmp_serve_params, k, l) whole
            ]
      ]

  -- A request to /gmp-metrics, whatever it is answered, changes the caches and the world by atomic
  -- steps of Life only.
  pub serve_gmp_metrics-Run :
      (now : ℕ → Time) (in_flight : ℕ) (q : Query) (st : Stores W T C)
      → Run imp cfg st ((serve_gmp_metrics imp cfg now in_flight q st).world)
  unfolding gmp_serve_http gmp_reject_busy gmp_reject_bad
  serve_gmp_metrics-Run now in_flight q st =
      let limits = resolve_gmp_limits (limits_of cfg) in
      elim (Bool-cases (has_room (pos_part limits.max_concurrent) in_flight)) [
        | inr full ↦ rw (gmp_serve_http, full) stop
        | inl room ↦ elim (parsed_cases (parse_gmp_request imp.lib limits q)) [
          | inr (msg, (status, e)) ↦ rw (gmp_serve_http, room, e) stop
          | inl (p, e) ↦ rw (gmp_serve_http, room, e) (gmp_serve_params-Run limits now p st)
        ]
      ]
