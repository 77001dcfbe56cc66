-- ===== src/Api/Prom.antt =====
-- Prometheus metric families, the values that internal/collector and internal/gmp build
-- (github.com/prometheus/client_model).
use gcp_metrics_exporter.Common.{ℕ, String, List, [], Option}
use gcp_metrics_exporter.Common.Int.{ℤ}

pub data MetricType : Type 0 where
  gauge_metric : MetricType
  counter_metric : MetricType
  histogram_metric : MetricType

pub record LabelPair : Type 0 where
  pub name : String
  pub value : String

pub record Bucket (F : Type 0) : Type 0 where
  pub upper_bound : F
  pub cumulative_count : ℕ

pub record Histogram (F : Type 0) : Type 0 where
  pub sample_count : ℕ
  pub sample_sum : F
  pub bucket : List (Bucket F)

-- The one value that a metric carries.
pub data Value (F : Type 0) : Type 0 where
  gauge_value : F → Value F
  counter_value : F → Value F
  histogram_value : Histogram F → Value F

pub record Metric (F : Type 0) : Type 0 where
  pub label : List LabelPair
  pub value : Value F
  pub timestamp_ms : Option ℤ

pub record MetricFamily (F : Type 0) : Type 0 where
  pub name : String
  pub type : MetricType
  pub help : String
  pub metric : List (Metric F)

-- What the getters of a nil `*dto.MetricFamily` return.
abbrev pub nil_family : {F : Type 0} → MetricFamily F
nil_family = record { name = ""; type = counter_metric; help = ""; metric = [] }
