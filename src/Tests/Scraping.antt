-- ===== src/Tests/Scraping.antt =====
-- main's factories with toy packages: a scrape, what it leaves, and the end of the process.
use gcp_metrics_exporter.Common.{ℕ, suc, ◌≡◌, refl, String, List, []}
use gcp_metrics_exporter.Api.Context.{background}
use gcp_metrics_exporter.Errors.{ok, err, is, sentinel, deadline_exceeded}
use gcp_metrics_exporter.Api.Float.{IntFloat, int_floats}
use mathlib.Core.List.{lookup}
use gcp_metrics_exporter.Auth.{load_base_credentials, new_token_source}
use gcp_metrics_exporter.ClientCache.{config_for, get_or_build}
use gcp_metrics_exporter.Collector.Clients.{build, get}
use gcp_metrics_exporter.Collector.Collect.{collect, collect_loop, drain}
use gcp_metrics_exporter.Collector.Params.{resolve_max_series}
use gcp_metrics_exporter.Collector.Request.{build_request}
use gcp_metrics_exporter.Handler.Limits.{resolve_limits}
use gcp_metrics_exporter.Handler.Metrics.{
  serve_params, respond_families, serve_http, write_families,
}
use gcp_metrics_exporter.Api.Prom.{MetricFamily}
use gcp_metrics_exporter.ClientCache.Laws
use gcp_metrics_exporter.ClientCache.Split.{IsOnly}
use gcp_metrics_exporter.Collector.Clients.Laws.{closed_world}
use gcp_metrics_exporter.Server.Shutdown.{on_signal}
use gcp_metrics_exporter.Server.Shutdown.Laws.{shut}
use gcp_metrics_exporter.Server.Wiring.{auth_config}
use gcp_metrics_exporter.Handler.Http.{exposition}
use gcp_metrics_exporter.Handler.Request.{
  parse_request, required, parse_positive, parse_emit_timestamps,
}
use gcp_metrics_exporter.Server.Factory.{Imports, Stores, collector_of, factory, serve_metrics}
use gcp_metrics_exporter.Server.Factory.Made.{state_after}
use gcp_metrics_exporter.Server.Factory.Scrapes.{IsScraped, serve_metrics-IsScraped}
use gcp_metrics_exporter.Server.Life.{fresh, Run, stop, more, get_client}
use gcp_metrics_exporter.Server.Life.Requests.{serve_metrics-Run}
use gcp_metrics_exporter.Server.Life.Clean.{on_signal-IsOnly}
use gcp_metrics_exporter.Gmp.Client.{
  HttpResponse, query as query_upstream, read_response, parse_query_response, read_samples,
  read_sample,
}
use gcp_metrics_exporter.Gmp.Clients.{build_http, get_http}
use gcp_metrics_exporter.Gmp.Collect.{collect_vector}
use gcp_metrics_exporter.Handler.GmpMetrics.{gmp_serve_http, gmp_serve_params, gmp_respond_families}
use gcp_metrics_exporter.Handler.GmpRequest.{parse_gmp_request, parse_time_offset}
use gcp_metrics_exporter.Handler.Limits.{resolve_gmp_limits}
use gcp_metrics_exporter.Server.Factory.{client_of, gmp_factory, serve_gmp_metrics}
use gcp_metrics_exporter.Server.Factory.GmpScrapes.{IsGmpScraped, serve_gmp_metrics-IsGmpScraped}
use gcp_metrics_exporter.Tests.Managed.{gmp_query}
use gcp_metrics_exporter.Tests.Dialing.{counted, numbered}
use gcp_metrics_exporter.Tests.Querying.{decoder, answering}
use gcp_metrics_exporter.Tests.Running.{environment, configured, loaded, late}
use gcp_metrics_exporter.Tests.Samples.{toy_sdk, toy_lib, noon, two_series}
use gcp_metrics_exporter.Tests.Serving.{encoder, clock, query}

abbrev imports : Imports ℕ String ℕ IntFloat String String String
imports = record {
  google = counted;
  dialing = numbered;
  upstream = record {
    metric_client = λ client n. record {
      list_time_series = λ ctx req. two_series;
      get_metric_descriptor = λ ctx name. ok "1";
    };
    now = λ n. noon;
    after = λ client p n. suc n;
  };
  transport = answering (err (sentinel deadline_exceeded));
  decoding = decoder;
  float = int_floats;
  sdk = toy_sdk;
  lib = toy_lib;
  encoder = encoder;
}

answers_200 : ((serve_metrics imports configured clock 0 query (fresh 0)).response).status ≡ 200
unfolding serve_http factory resolve_limits parse_request required parse_positive
    parse_emit_timestamps serve_params get get_or_build lookup build new_token_source config_for
    collect build_request drain collect_loop resolve_max_series is respond_families collector_of
answers_200 = refl

serve_metrics-IsScraped_example :
    (families : List (MetricFamily IntFloat)) × (IsScraped imports configured query
        (fresh 0)
        families
      × (((serve_metrics imports configured clock 0 query (fresh 0)).response).body
          ≡ exposition ((write_families imports.encoder families).families)))
serve_metrics-IsScraped_example =
    serve_metrics-IsScraped imports configured environment clock 0 query (fresh 0) loaded
      answers_200

serve_metrics-Run_example :
    Run imports configured
      (fresh 0)
      ((serve_metrics imports configured clock 0 query (fresh 0)).world)
serve_metrics-Run_example = serve_metrics-Run imports configured clock 0 query (fresh 0)

first_client :
    (get imports.google imports.dialing (auth_config configured) background "a" [] 0).0 ≡ ok 2
unfolding get build get_or_build config_for new_token_source load_base_credentials lookup
first_client = refl

-- The process at the end: two targets have a client.
abbrev last : Stores ℕ String ℕ
last =
    state_after imports configured background "b"
      (state_after imports configured background "a" (fresh 0))

on_signal-IsOnly_example :
    let drained = (shut late configured last.clients last.outside).1 in
    (only : IsOnly "a" 2 (drained.0)) × (let before =
        closed_world imports.dialing only.before (drained.1) in
      (on_signal imports.dialing (λ s. s) late configured last.clients last.outside).world
      ≡ (late.listener
          (closed_world imports.dialing only.after ((imports.dialing.close 2 before).1))).1)
on_signal-IsOnly_example =
    on_signal-IsOnly imports configured (λ s. s) late 0 background "a" 2 stop first_client
      (more stop (get_client background "b")) Laws.stop

abbrev vector_response : HttpResponse String
vector_response = record { status_code = 200; status = "200 OK"; body = ok "success" }

abbrev answered : Imports ℕ String ℕ IntFloat String String String
answered = record imports { transport = answering (ok vector_response) }

gmp_answers_200 :
    ((serve_gmp_metrics answered configured clock 0 gmp_query (fresh 0)).response).status ≡ 200
unfolding gmp_serve_http gmp_factory resolve_gmp_limits parse_gmp_request gmp_serve_params get_http
    build_http get_or_build lookup new_token_source config_for load_base_credentials client_of
    query_upstream read_response parse_query_response read_samples read_sample collect_vector
    gmp_respond_families required parse_time_offset
gmp_answers_200 = refl

serve_gmp_metrics-IsGmpScraped_example :
    (families : List (MetricFamily IntFloat)) × (IsGmpScraped answered configured clock gmp_query
        (fresh 0)
        families
      × (((serve_gmp_metrics answered configured clock 0 gmp_query (fresh 0)).response).body
          ≡ exposition ((write_families answered.encoder families).families)))
serve_gmp_metrics-IsGmpScraped_example =
    serve_gmp_metrics-IsGmpScraped answered configured clock environment 0 gmp_query (fresh 0)
      loaded gmp_answers_200
