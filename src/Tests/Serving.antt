-- ===== src/Tests/Serving.antt =====
-- internal/handler at a small configuration.
use gcp_metrics_exporter.Common.{
  ℕ, suc, ◌≡◌, ◌≤◌, ◌<◌, refl, ◌↔◌, true, false, none, [], length, ◌==◌, if◌then◌else◌,
}
use gcp_metrics_exporter.Common.Int.{pos, pos_part}
use gcp_metrics_exporter.Errors.{
  Error, sentinel, wrap, max_series_exceeded, invalid_aggregation, deadline_exceeded, canceled, is,
  ok, join,
}
use gcp_metrics_exporter.Api.Float.{IntFloat, int_floats}
use gcp_metrics_exporter.Api.Time.{Time}
use gcp_metrics_exporter.Collector.Collect.{drain}
use gcp_metrics_exporter.Handler.Gate.{
  Run, stop, more, arrive, holds, try_acquire, release, places, gate_bounded,
}
use gcp_metrics_exporter.Handler.Limits.{Limits}
use gcp_metrics_exporter.Handler.MapError.{map_error}
use gcp_metrics_exporter.Handler.MapError.Table.{IsTable, map_error-IsTable}
use gcp_metrics_exporter.Handler.Metrics.{CollectorOf, CollectorForSa, Encoder, serve_http}
use gcp_metrics_exporter.Handler.Metrics.Answers.{Answer, IsRun, serve_http-Answer}
use gcp_metrics_exporter.Handler.Request.{Query, RequestParams, accepted, parse_request}
use gcp_metrics_exporter.Handler.Request.Steps.{Verdict}
use gcp_metrics_exporter.Handler.Request.Accepts.{IsWellFormed, IsUsable, parse_request-Verdict}
use gcp_metrics_exporter.Tests.Samples.{toy_sdk, toy_lib, noon, cpu, two_series}

abbrev pub limits : Limits
limits = record {
  scrape_timeout = pos 5;
  max_concurrent = pos 2;
  max_series = pos 10;
  default_impersonate_sa = "";
}

abbrev pub query : Query
query name =
    if name == "project"
    then "p"
    else if name == "metric_type"
    then cpu
    else if name == "interval"
    then "1m"
    else ""

-- The same with a reducer and three parts of group_by, one of them blank.
abbrev grouping : Query
grouping name =
    if name == "reducer"
    then "REDUCE_SUM"
    else if name == "group_by"
    then "zone, ,name"
    else query name

parse_request-Verdict_example :
    Verdict
      (IsWellFormed toy_lib grouping)
      (IsUsable toy_lib limits grouping)
      (parse_request toy_lib limits grouping)
parse_request-Verdict_example = parse_request-Verdict toy_lib limits grouping

-- The cap was exceeded, and the deadline too.
abbrev capped : Error
capped = join (wrap "" (sentinel max_series_exceeded) ": limit=1") (sentinel deadline_exceeded)

map_error-IsTable_example :
    IsTable
      (is capped max_series_exceeded)
      (is capped invalid_aggregation)
      (is capped deadline_exceeded)
      (is capped canceled)
      (toy_sdk.status_code capped)
      (map_error toy_sdk capped)
map_error-IsTable_example = map_error-IsTable toy_sdk capped

-- A collector that counts its calls in the world and finds the two series.
abbrev counting : CollectorOf ℕ IntFloat
counting = record {
  collect = λ ctx p calls. (drain int_floats cpu "" true 5 two_series, suc calls);
}

abbrev for_sa : CollectorForSa ℕ IntFloat
for_sa ctx sa calls = (ok counting, calls)

abbrev pub encoder : Encoder IntFloat
encoder = record { mime = "text/plain"; encode = λ mf. none; message = λ e. "error" }

abbrev pub clock : ℕ → Time
clock n = noon

serve_http-Answer_example :
    Answer encoder
      (λ families.
        (0 < pos_part limits.max_concurrent)
        × ((p : RequestParams) × ((parse_request toy_lib limits query ≡ accepted p)
              × IsRun limits for_sa p 0 families)))
      ((serve_http toy_sdk toy_lib encoder limits for_sa clock 0 query 0).response)
serve_http-Answer_example = serve_http-Answer limits for_sa toy_sdk toy_lib encoder clock 0 query 0

abbrev one_inside : Run (places limits) [] ((try_acquire (places limits) 7 []).1)
one_inside = more stop (arrive 7 refl)

gate_bounded_example :
    (length ((try_acquire (places limits) 7 []).1) ≤ places limits)
    × (((i : ℕ)
          → ((try_acquire (places limits) i ((try_acquire (places limits) 7 []).1)).0 ≡ false)
            ↔ (length ((try_acquire (places limits) 7 []).1) ≡ places limits))
        × ((i j : ℕ)
            → holds i ((try_acquire (places limits) 7 []).1) ≡ true
            → (try_acquire (places limits) j (release i ((try_acquire (places limits) 7 []).1))).0
              ≡ true))
gate_bounded_example = gate_bounded limits ((try_acquire (places limits) 7 []).1) one_inside
