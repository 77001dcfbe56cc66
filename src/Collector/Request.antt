-- ===== src/Collector/Request.antt =====
-- internal/collector/collector.go: composeFilter and buildRequest.
pub mod Laws
use Prim.Native.String.{◌++◌ as append}
use gcp_metrics_exporter.Common.{
  ℕ, String, Bool, true, false, not, ◌&&◌, Option, none, some, List, [], ◌∷◌, ◌==◌, if◌then◌else◌,
}
use gcp_metrics_exporter.Common.Int.{◌-ℤ◌, is_nonpos}
use gcp_metrics_exporter.Errors.{
  Error, sentinel, text, wrap, invalid_aggregation, Result, ok, err, ◌>>=◌,
}
use gcp_metrics_exporter.Strings.{is_empty, trim_space}
use gcp_metrics_exporter.Api.Time.{Time, Duration, truncate}
use gcp_metrics_exporter.Api.Monitoring.{Aligner, Reducer, Aggregation, full, ListTimeSeriesRequest}
use gcp_metrics_exporter.Api.Sdk.{Sdk, GoLib}
use gcp_metrics_exporter.Collector.Params.{QueryParams, default_interval}

-- `if s == "" { s = d }`
abbrev pub default_text : String → String → String
default_text d s = if s == "" then d else s

-- `if d <= 0 { d = fallback }`
abbrev pub default_duration : Duration → Duration → Duration
default_duration fallback d = if is_nonpos d then fallback else d

abbrev pub interval_of : QueryParams → Duration
interval_of p = default_duration default_interval p.interval

abbrev pub alignment_of : QueryParams → Duration
alignment_of p = default_duration (interval_of p) p.alignment_period

abbrev pub aligner_of : QueryParams → String
aligner_of p = default_text "ALIGN_MEAN" p.aligner

abbrev pub reducer_of : QueryParams → String
reducer_of p = default_text "REDUCE_NONE" p.reducer

abbrev pub has_any {ℓ} : {A : Type ℓ} → List A → Bool
has_any [] = false
has_any (_ ∷ _) = true

abbrev pub metric_clause : GoLib → String → String
metric_clause lib metric_type = append "metric.type = " (lib.quote metric_type)

unfoldable pub compose_filter : GoLib → String → String → String
compose_filter lib metric_type user_filter =
    let base = metric_clause lib metric_type in
    let trimmed = trim_space user_filter in
    if is_empty trimmed then base else append base (append " AND (" (append trimmed ")"))

abbrev pub guard : Bool → Error → Result (Unit {0})
guard true e = ok tt
guard false e = err e

-- A lookup in a table, `v, ok := table[name]; if !ok { return err }`.
abbrev pub found {ℓ} : {A : Type ℓ} → Error → Option A → Result A
found e none = err e
found e (some a) = ok a

infixl 5 ◌>>◌
abbrev ◌>>◌ {ℓ} : {B : Type ℓ} → Result (Unit {0}) → Result B → Result B
m >> k = m >>= λ _. k

-- The end of the query window.
unfoldable pub window_end : Time → QueryParams → Time
window_end now p = if p.emit_timestamps then truncate now (alignment_of p) else now

unfoldable pub group_by_of : QueryParams → List String
group_by_of p =
    if not (reducer_of p == "REDUCE_NONE") && has_any p.group_by_fields
    then p.group_by_fields
    else []

-- The request that is returned once every parameter is accepted.
abbrev pub request_for : GoLib → Time → QueryParams → Aligner → Reducer → ListTimeSeriesRequest
request_for lib now p aligner reducer = record {
  name = append "projects/" p.project_id;
  filter = compose_filter lib p.metric_type p.filter;
  start_time = window_end now p -ℤ interval_of p;
  end_time = window_end now p;
  aggregation = record {
    alignment_period = alignment_of p;
    per_series_aligner = aligner;
    cross_series_reducer = reducer;
    group_by_fields = group_by_of p;
  };
  view = full;
}

module _ (sdk : Sdk) (lib : GoLib) where
  abbrev pub bad_aligner : String → Error
  bad_aligner name =
      wrap (append "invalid aligner " (append (lib.quote name) ": ")) (sentinel invalid_aggregation)
        ""

  abbrev pub bad_reducer : String → Error
  bad_reducer name =
      wrap (append "invalid reducer " (append (lib.quote name) ": ")) (sentinel invalid_aggregation)
        ""

  unfoldable pub build_request : Time → QueryParams → Result ListTimeSeriesRequest
  build_request now p = do
    guard (not (is_empty p.project_id)) (text "collector: ProjectID is required")
    guard (not (is_empty p.metric_type)) (text "collector: MetricType is required")
    aligner ← found (bad_aligner (aligner_of p)) (sdk.aligner_value (aligner_of p))
    reducer ← found (bad_reducer (reducer_of p)) (sdk.reducer_value (reducer_of p))
    ok (request_for lib now p aligner reducer)
