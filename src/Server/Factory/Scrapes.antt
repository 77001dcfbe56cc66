-- ===== src/Server/Factory/Scrapes.antt =====
-- What a scrape of /metrics that is answered with 200 contains (cmd/server/main.go,
-- internal/handler/handler.go and internal/collector together).
use gcp_metrics_exporter.Common.{ℕ, ◌≡◌, ap, inl, inr, List, arith}
use gcp_metrics_exporter.Common.Int.{pos, pos_part}
use gcp_metrics_exporter.Errors.{Result-cases, ok, err}
use gcp_metrics_exporter.Api.Float.{Float64}
use gcp_metrics_exporter.Api.Time.{Time}
use gcp_metrics_exporter.Api.Context.{Context, request_context, with_timeout}
use gcp_metrics_exporter.Api.Monitoring.{TimeSeries, ListTimeSeriesRequest}
use gcp_metrics_exporter.Api.Prom.{MetricFamily}
use gcp_metrics_exporter.Api.Sdk.{Sdk, GoLib}
use gcp_metrics_exporter.Collector.Clients.{get}
use gcp_metrics_exporter.Collector.Collect.{MetricClient, collect}
use gcp_metrics_exporter.Collector.Collect.Grouped.{IsComplete, drain-IsComplete}
use gcp_metrics_exporter.Collector.Descriptor.{DescriptorCache, unit, help_text}
use gcp_metrics_exporter.Collector.Params.{QueryParams, resolve_max_series}
use gcp_metrics_exporter.Collector.Request.{build_request}
use gcp_metrics_exporter.Handler.Http.{exposition}
use gcp_metrics_exporter.Handler.Metrics.{write_families}
use gcp_metrics_exporter.Handler.Metrics.Answers.{serve_http-Answer, IsRun, served, refused}
use gcp_metrics_exporter.Handler.Request.{
  Query, RequestParams, accepted, parse_request, query_params,
}
use gcp_metrics_exporter.Server.Config.{Env, Config, load_config}
use gcp_metrics_exporter.Server.Wiring.{auth_config, limits_of}
use gcp_metrics_exporter.Server.Wiring.Accepted.{load_config-IsKept}
use gcp_metrics_exporter.Server.Factory.Made.{factory-IsMade}
use gcp_metrics_exporter.Server.Factory.{Stores, Imports, collector_of, factory, serve_metrics}

module _ {F : Type 0} (fl : Float64 F) (sdk : Sdk) (lib : GoLib) (client : MetricClient F) (max : ℕ)
    (now : Time) (ctx : Context) (p : QueryParams) (cache : DescriptorCache) where
  -- The request could be built, the API's answer to it was read to its end within the cap, and these
  -- are the families of all its series.
  pub record IsCollected (families : List (MetricFamily F)) : Type 0 where
    pub request : ListTimeSeriesRequest
    pub built : build_request sdk lib now p ≡ ok request
    pub series : List (TimeSeries F)
    pub complete :
        IsComplete fl p.metric_type
          (help_text sdk lib p.metric_type request.aggregation
            ((unit sdk (client.get_metric_descriptor ctx) p.project_id p.metric_type cache).0))
          p.emit_timestamps
          max
          (client.list_time_series ctx request)
          families
          series

  collect-IsCollected :
      (families : List (MetricFamily F))
      → (collect fl sdk lib (record { client = client; max_series = max }) now ctx p cache).0
        ≡ ok families
      → IsCollected families
  unfolding collect
  collect-IsCollected families h = elim (Result-cases (build_request sdk lib now p)) [
    | inr (e, k) ↦ let bad : err e ≡ ok families = rw (k, collect) at h in absurd (ground arith)
    | inl (req, k) ↦
        let got = rw (k, collect) at h in
        let (ss, complete) = drain-IsComplete _ _ _ _ _ _ families got in
        record { request = req; built = k; series = ss; complete = complete }
  ]

module _ {W T C F B R D : Type 0} (imp : Imports W T C F B R D) (cfg : Config) where
  -- The query was accepted, the cache gave a client for its target, and a Collect with that client,
  -- the configured deadline and the configured cap found the families.
  pub record IsScraped (q : Query) (st : Stores W T C) (families : List (MetricFamily F))
      : Type 0 where
    pub params : RequestParams
    pub parsed : parse_request imp.lib (limits_of cfg) q ≡ accepted params
    pub client : C
    pub given :
        (get imp.google imp.dialing
          (auth_config cfg)
          (with_timeout request_context cfg.scrape_timeout)
          params.impersonate_sa
          st.clients
          st.outside).0
        ≡ ok client
    pub collected :
        let w =
          (get imp.google imp.dialing
            (auth_config cfg)
            (with_timeout request_context cfg.scrape_timeout)
            params.impersonate_sa
            st.clients
            st.outside).1.1 in
        IsCollected imp.float imp.sdk imp.lib
          (imp.upstream.metric_client client w)
          (pos_part cfg.max_series)
          (imp.upstream.now w)
          (with_timeout request_context cfg.scrape_timeout)
          (query_params params)
          st.descriptors
          families

  run-IsScraped :
      (q : Query) (st : Stores W T C) (families : List (MetricFamily F)) (p : RequestParams)
      → pos (resolve_max_series ((limits_of cfg).max_series)) ≡ cfg.max_series
      → parse_request imp.lib (limits_of cfg) q ≡ accepted p
      → IsRun (limits_of cfg) (factory imp cfg) p st families
      → IsScraped q st families
  unfolding collector_of
  run-IsScraped q st families p capped parsed run =
      let m = factory-IsMade imp cfg _ p.impersonate_sa st run.collector run.made in
      let found = rw (m.state, m.wrapped) at run.collected in
      record {
        params = p;
        parsed = parsed;
        client = m.client;
        given = m.given;
        collected =
            rw (← ap pos_part capped) (collect-IsCollected _ _ _ _ _ _ _ _ _ families found);
      }

  -- If main's configuration is one that loadConfig returned and /metrics answers 200, then the query
  -- was accepted, the client cache gave a client for the query's target, and Collect read Cloud
  -- Monitoring's answer to its request to the end, at most as many series as MAX_SERIES_PER_REQUEST
  -- says; the body is the families of all those series that convert, up to the first family that
  -- cannot be encoded.
  pub serve_metrics-IsScraped :
      (getenv : Env) (now : ℕ → Time) (in_flight : ℕ) (q : Query) (st : Stores W T C)
      → load_config imp.lib getenv ≡ ok cfg
      → ((serve_metrics imp cfg now in_flight q st).response).status ≡ 200
      → (families : List (MetricFamily F)) × (IsScraped q st families
          × (((serve_metrics imp cfg now in_flight q st).response).body
              ≡ exposition ((write_families imp.encoder families).families)))
  serve_metrics-IsScraped getenv now in_flight q st loaded =
      let kept = load_config-IsKept imp.lib getenv cfg loaded in
      rw (kept.metrics) (λ h.
        elim (serve_http-Answer (limits_of cfg) (factory imp cfg) imp.sdk imp.lib imp.encoder now
          in_flight q st) [
            | refused _ r ↦ let low = r.failed in absurd (omega arith)
            | served families s _ body ↦
                (families, (run-IsScraped q st families (s.1.0) kept.cap (s.1.1.0) (s.1.1.1), body))
          ])
