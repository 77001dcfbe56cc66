-- ===== src/Server/Factory.antt =====
-- cmd/server/main.go: the factories that main hands to the two handlers, and the handlers with them.
-- The requests share the caches; W is the world outside the process.
pub mod GmpScrapes
pub mod Made
pub mod Scrapes
use gcp_metrics_exporter.Common.{ℕ, String}
use gcp_metrics_exporter.Errors.{Result, ok, err}
use gcp_metrics_exporter.Api.Float.{Float64}
use gcp_metrics_exporter.Api.Time.{Time}
use gcp_metrics_exporter.Api.Context.{Context}
use gcp_metrics_exporter.Api.Sdk.{Sdk, GoLib}
use gcp_metrics_exporter.Auth.{Google}
use gcp_metrics_exporter.ClientCache.{Clients}
use gcp_metrics_exporter.Collector.Clients.{Dialing, get}
use gcp_metrics_exporter.Collector.Collect.{MetricClient, collect}
use gcp_metrics_exporter.Collector.Descriptor.{DescriptorCache}
use gcp_metrics_exporter.Collector.Params.{QueryParams, resolve_max_series}
use gcp_metrics_exporter.Gmp.Client.{Decoding, Transport, query}
use gcp_metrics_exporter.Gmp.Clients.{HttpClient, get_http}
use gcp_metrics_exporter.Handler.GmpMetrics.{GmpClient, GmpClientForSa, gmp_serve_http}
use gcp_metrics_exporter.Handler.Limits.{resolve_limits, resolve_gmp_limits}
use gcp_metrics_exporter.Handler.Metrics.{CollectorOf, CollectorForSa, Outcome, Encoder, serve_http}
use gcp_metrics_exporter.Handler.Request.{Query}
use gcp_metrics_exporter.Server.Config.{Config}
use gcp_metrics_exporter.Server.Wiring.{auth_config, limits_of}

-- collector.ClientCache, collector.DescriptorCache and gmp.ClientCache, with the world.
pub record Stores (W T C : Type 0) : Type 0 where
  pub clients : Clients C
  pub descriptors : DescriptorCache
  pub http_clients : Clients (HttpClient T)
  pub outside : W

-- The SDK client's answers (NewMetricClientFromGCP) and time.Now, in the world in which Collect begins,
-- and the world that its calls leave.
pub record Upstream (W C F : Type 0) : Type 0 where
  pub metric_client : C → W → MetricClient F
  pub now : W → Time
  pub after : C → QueryParams → W → W

-- The packages that the program imports. T is a token source, C an SDK client, B the body of an HTTP
-- response, R a raw JSON value, D the content of a credentials file.
pub record Imports (W T C F B R D : Type 0) : Type 0 where
  pub google : Google W D T
  pub dialing : Dialing W T C
  pub upstream : Upstream W C F
  pub transport : Transport W B T
  pub decoding : Decoding B R F
  pub float : Float64 F
  pub sdk : Sdk
  pub lib : GoLib
  pub encoder : Encoder F

module _ {W T C F B R D : Type 0} (imp : Imports W T C F B R D) (cfg : Config) where
  -- NewGCPCollector with the client and main's options.
  unfoldable pub collector_of : C → CollectorOf (Stores W T C) F
  collector_of client = record {
    collect = λ ctx p st.
        let done =
          collect imp.float imp.sdk imp.lib
            (record {
              client = imp.upstream.metric_client client st.outside;
              max_series = resolve_max_series ((limits_of cfg).max_series);
            })
            (imp.upstream.now st.outside) ctx p st.descriptors in
        (
          done.0,
          record st { descriptors = done.1; outside = imp.upstream.after client p st.outside },
        );
  }

  -- factory
  unfoldable pub factory : CollectorForSa (Stores W T C) F
  unfolding collector_of
  factory ctx sa st =
      let got = get imp.google imp.dialing (auth_config cfg) ctx sa st.clients st.outside in
      let st' : Stores W T C = record st { clients = got.1.0; outside = got.1.1 } in
      elim (got.0) [ err e ↦ (err e, st') | ok client ↦ (ok (collector_of client), st') ]

  -- gmp.HTTPClient as the gmp.Client that it is.
  unfoldable pub client_of : HttpClient T → GmpClient (Stores W T C) F
  client_of client = record {
    query = λ ctx project promql at st.
        let done =
          query imp.decoding imp.float imp.transport client ctx project promql at st.outside in
        (done.0, record st { outside = done.1 });
  }

  -- gmpFactory
  unfoldable pub gmp_factory : GmpClientForSa (Stores W T C) F
  unfolding client_of
  gmp_factory ctx sa st =
      let got = get_http imp.google (auth_config cfg) ctx sa st.http_clients st.outside in
      let st' : Stores W T C = record st { http_clients = got.1.0; outside = got.1.1 } in
      elim (got.0) [ err e ↦ (err e, st') | ok client ↦ (ok (client_of client), st') ]

  -- The handler of /metrics.
  abbrev pub serve_metrics : (ℕ → Time) → ℕ → Query → Stores W T C → Outcome (Stores W T C) F
  serve_metrics now =
      serve_http imp.sdk imp.lib imp.encoder (resolve_limits (limits_of cfg)) factory now

  -- The handler of /gmp-metrics.
  abbrev pub serve_gmp_metrics : (ℕ → Time) → ℕ → Query → Stores W T C → Outcome (Stores W T C) F
  serve_gmp_metrics now =
      gmp_serve_http imp.lib imp.encoder (resolve_gmp_limits (limits_of cfg)) gmp_factory now
