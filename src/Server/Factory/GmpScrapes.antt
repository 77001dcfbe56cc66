-- ===== src/Server/Factory/GmpScrapes.antt =====
-- What a scrape of /gmp-metrics that is answered with 200 contains (cmd/server/main.go,
-- internal/handler/gmp_handler.go and internal/gmp together).
use gcp_metrics_exporter.Common.{ℕ, ◌≡◌, List, arith}
use gcp_metrics_exporter.Common.Int.{◌-ℤ◌}
use gcp_metrics_exporter.Errors.{ok}
use gcp_metrics_exporter.Api.Time.{Time}
use gcp_metrics_exporter.Api.Context.{Context, request_context, with_timeout}
use gcp_metrics_exporter.Api.Prom.{MetricFamily}
use gcp_metrics_exporter.Gmp.Client.Answers.{IsQueried, query-IsQueried}
use gcp_metrics_exporter.Gmp.Clients.{HttpClient, get_http}
use gcp_metrics_exporter.Gmp.Collect.{VectorSample}
use gcp_metrics_exporter.Handler.GmpMetrics.Answers.{
  IsGmpRun, vector_families, gmp_serve_http-Answer,
}
use gcp_metrics_exporter.Handler.GmpRequest.{GmpRequestParams, parse_gmp_request}
use gcp_metrics_exporter.Handler.Http.{exposition}
use gcp_metrics_exporter.Handler.Metrics.{write_families}
use gcp_metrics_exporter.Handler.Metrics.Answers.{served, refused}
use gcp_metrics_exporter.Handler.Request.{Query, accepted}
use gcp_metrics_exporter.Server.Config.{Env, Config, load_config}
use gcp_metrics_exporter.Server.Wiring.{auth_config, limits_of}
use gcp_metrics_exporter.Server.Wiring.Accepted.{load_config-IsKept}
use gcp_metrics_exporter.Server.Factory.{Stores, Imports, client_of, gmp_factory, serve_gmp_metrics}
use gcp_metrics_exporter.Server.Factory.Made.{gmp_factory-IsGmpMade, gmp_factory_state}

module _ {W T C F B R D : Type 0} (imp : Imports W T C F B R D) (cfg : Config)
    (now : ℕ → Time) where
  -- The query was accepted, the cache gave a client for its target, and the samples are those of a
  -- successful answer to the query at the clock's moment less the offset.
  pub record IsGmpScraped (q : Query) (st : Stores W T C) (families : List (MetricFamily F))
      : Type 0 where
    pub params : GmpRequestParams
    pub parsed : parse_gmp_request imp.lib (limits_of cfg) q ≡ accepted params
    pub client : HttpClient T
    pub given :
        (get_http imp.google
          (auth_config cfg)
          (with_timeout request_context cfg.scrape_timeout)
          params.impersonate_sa
          st.http_clients
          st.outside).0
        ≡ ok client
    pub samples : List (VectorSample F)
    pub queried :
        IsQueried imp.decoding imp.float imp.transport client
          (with_timeout request_context cfg.scrape_timeout)
          params.project
          params.query
          (now 1 -ℤ params.time_offset)
          ((get_http imp.google
            (auth_config cfg)
            (with_timeout request_context cfg.scrape_timeout)
            params.impersonate_sa
            st.http_clients
            st.outside).1.1)
          samples
    pub grouped : families ≡ vector_families samples

  run-IsGmpScraped :
      (q : Query) (st : Stores W T C) (families : List (MetricFamily F)) (p : GmpRequestParams)
      → parse_gmp_request imp.lib (limits_of cfg) q ≡ accepted p
      → IsGmpRun (limits_of cfg) (gmp_factory imp cfg) now p st families
      → IsGmpScraped q st families
  unfolding client_of
  run-IsGmpScraped q st families p parsed run =
      let ctx : Context = with_timeout request_context cfg.scrape_timeout in
      let m = gmp_factory-IsGmpMade imp cfg ctx p.impersonate_sa st run.client run.made in
      let answered =
        rw (gmp_factory_state imp cfg ctx p.impersonate_sa st, m.wrapped) at run.answered in
      record {
        params = p;
        parsed = parsed;
        client = m.client;
        given = m.given;
        samples = run.samples;
        queried = query-IsQueried _ _ _ _ _ _ _ _ _ run.samples answered;
        grouped = run.found;
      }

  -- If main's configuration is one that loadConfig returned and /gmp-metrics answers 200, then the
  -- query was accepted, the client cache gave a client for the query's target, Managed Prometheus
  -- answered that client's request with status 200 and a successful envelope, and the body is the
  -- families of the envelope's well-formed samples, up to the first that cannot be encoded.
  pub serve_gmp_metrics-IsGmpScraped :
      (getenv : Env) (in_flight : ℕ) (q : Query) (st : Stores W T C)
      → load_config imp.lib getenv ≡ ok cfg
      → ((serve_gmp_metrics imp cfg now in_flight q st).response).status ≡ 200
      → (families : List (MetricFamily F)) × (IsGmpScraped q st families
          × (((serve_gmp_metrics imp cfg now in_flight q st).response).body
              ≡ exposition ((write_families imp.encoder families).families)))
  serve_gmp_metrics-IsGmpScraped getenv in_flight q st loaded =
      let kept = load_config-IsKept imp.lib getenv cfg loaded in
      rw (kept.gmp) (λ h.
        elim (gmp_serve_http-Answer (limits_of cfg) (gmp_factory imp cfg) now imp.lib imp.encoder
          in_flight q st) [
            | refused _ r ↦ let low = r.failed in absurd (omega arith)
            | served families s _ body ↦
                (families, (run-IsGmpScraped q st families (s.1.0) (s.1.1.0) (s.1.1.1), body))
          ])
