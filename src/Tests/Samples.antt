-- ===== src/Tests/Samples.antt =====
-- A toy SDK and library, and series as Cloud Monitoring could return them.
use Prim.Native.String.{◌++◌ as append}
use gcp_metrics_exporter.Common.{
  ℕ, zero, suc, ◌+◌, ◌*◌, nat_eq, String, true, Option, none, some, [], ◌∷◌, ◌==◌, if◌then◌else◌,
}
use gcp_metrics_exporter.Common.Int.{pos}
use gcp_metrics_exporter.Errors.{sentinel, iterator_done, ok, err, as_api_error}
use gcp_metrics_exporter.Api.Float.{IntFloat}
use gcp_metrics_exporter.Api.Time.{Time, seconds, unix_epoch, second}
use gcp_metrics_exporter.Api.Monitoring.{
  MetricKind, gauge, cumulative, other_kind, ValueType, int64, double, other_aligner, reduce_none,
  reduce_count, Code, unknown, not_found, resource_exhausted, LinearBuckets, linear_buckets,
  Distribution, TypedValue, Point, MonitoredResource, TimeSeries,
}
use gcp_metrics_exporter.Api.Sdk.{Sdk, GoLib}
use gcp_metrics_exporter.Collector.Params.{QueryParams}
use gcp_metrics_exporter.Collector.Collect.{Iterator}

abbrev code_of : Option ℕ → Code
code_of (some n) =
    if nat_eq n 404 then not_found else if nat_eq n 429 then resource_exhausted else unknown
code_of none = unknown

abbrev pub toy_sdk : Sdk
toy_sdk = record {
  aligner_value = λ s. if s == "ALIGN_MEAN" then some (other_aligner 12) else none;
  aligner_name = λ a. "ALIGN_MEAN";
  reducer_value = λ s.
      if s == "REDUCE_NONE"
      then some reduce_none
      else if s == "REDUCE_COUNT"
      then some reduce_count
      else none;
  reducer_name = λ r. "REDUCE_NONE";
  status_code = λ e. code_of (as_api_error e);
  code_name = λ c. "Code";
}

abbrev pub toy_lib : GoLib
toy_lib = record {
  quote = λ s. append "\"" (append s "\"");
  duration_string = λ d. "1m0s";
  parse_duration =
      λ s. if s == "1m" then some (seconds 60) else if s == "-1m" then some (pos 0) else none;
  sha256_hex = λ s. "0123456789abcdef";
  to_lower = λ s. if s == "WARN" then "warn" else s;
}

abbrev pub cpu : String
cpu = "compute.googleapis.com/instance/cpu"

abbrev pub cpu_params : QueryParams
cpu_params = record {
  project_id = "p";
  metric_type = cpu;
  filter = "";
  aligner = "";
  reducer = "REDUCE_COUNT";
  group_by_fields = "zone" ∷ [];
  interval = pos 0;
  alignment_period = seconds 60;
  emit_timestamps = true;
}

abbrev pub noon : Time
noon = pos ((unix_epoch + 90) * second)

abbrev point_of : TypedValue IntFloat → Point IntFloat
point_of v = record {
  interval = some (record { start_time = some (pos (unix_epoch * second)); end_time = some noon });
  value = v;
}

abbrev pub ten_wide : LinearBuckets IntFloat
ten_wide = record { num_finite_buckets = pos 2; width = some (pos 10); offset = some (pos 0) }

abbrev pub two_buckets : Distribution IntFloat
two_buckets = record {
  count = pos 6;
  mean = some (pos 2);
  bucket_options = some (linear_buckets (some ten_wide));
  bucket_counts = pos 1 ∷ (pos 2 ∷ (pos 3 ∷ []));
}

abbrev pub vm : MonitoredResource
vm = record { type = "gce_instance"; labels = ("zone", "a") ∷ [] }

abbrev series_of : MetricKind → ValueType → TypedValue IntFloat → TimeSeries IntFloat
series_of kind value_type v = record {
  metric_labels = ("core", "0") ∷ [];
  resource = some vm;
  metric_kind = kind;
  value_type = value_type;
  points = point_of v ∷ [];
}

abbrev pub gauge_series : TimeSeries IntFloat
gauge_series =
    series_of gauge int64
      (record { int64_value = pos 7; double_value = some (pos 0); distribution_value = none })

abbrev pub counter_series : TimeSeries IntFloat
counter_series =
    series_of cumulative double
      (record { int64_value = pos 0; double_value = some (pos 5); distribution_value = none })

abbrev pub odd_series : TimeSeries IntFloat
odd_series =
    series_of (other_kind 9) int64
      (record { int64_value = pos 7; double_value = some (pos 0); distribution_value = none })

-- Two series and the end.
abbrev pub two_series : Iterator IntFloat
two_series zero = ok gauge_series
two_series (suc zero) = ok counter_series
two_series _ = err (sentinel iterator_done)

-- An iterator that never stops.
abbrev pub endless : Iterator IntFloat
endless n = ok gauge_series
