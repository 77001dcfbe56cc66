-- ===== src/Collector/Params.antt =====
-- internal/collector/collector.go: QueryParams, Options and the constructor's defaults.
use gcp_metrics_exporter.Common.{ℕ, String, Bool, List, if◌then◌else◌}
use gcp_metrics_exporter.Common.Int.{ℤ, pos_part, is_nonpos}
use gcp_metrics_exporter.Api.Time.{Duration, minutes}

abbrev pub default_interval : Duration
default_interval = minutes 5

abbrev pub default_max_series : ℕ
default_max_series = 10_000

pub record QueryParams : Type 0 where
  pub project_id : String
  pub metric_type : String
  pub filter : String
  pub aligner : String
  pub reducer : String
  pub group_by_fields : List String
  pub interval : Duration
  pub alignment_period : Duration
  pub emit_timestamps : Bool

-- The cap that NewGCPCollector keeps: Options.MaxSeries, 10000 when that is not positive.
unfoldable pub resolve_max_series : ℤ → ℕ
resolve_max_series n = if is_nonpos n then default_max_series else pos_part n
