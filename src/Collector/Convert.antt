-- ===== src/Collector/Convert.antt =====
-- internal/collector/collector.go: convertSeries, scalarValue, the label pairs and the moments of a
-- point.
pub mod Exports
pub mod Labels
use gcp_metrics_exporter.Common.{ℕ, String, Option, none, some, List, [], ◌∷◌, ◌++◌, map}
use gcp_metrics_exporter.Common.Int.{ℤ, pos}
use gcp_metrics_exporter.Strings.{format_int}
use gcp_metrics_exporter.Api.Float.{Float64}
use gcp_metrics_exporter.Api.Time.{Time, unix, unix_milli}
use gcp_metrics_exporter.Api.Monitoring.{
  MetricKind, gauge, delta, cumulative, other_kind, ValueType, int64, double, distribution,
  other_type, Distribution, TypedValue, TimeInterval, Point, MonitoredResource, TimeSeries,
}
use gcp_metrics_exporter.Api.Prom.{
  MetricType, gauge_metric, counter_metric, histogram_metric, LabelPair, Value, gauge_value,
  counter_value, histogram_value, Metric,
}
use gcp_metrics_exporter.Collector.Naming.{prom_metric_name}
use gcp_metrics_exporter.Collector.Histogram.{build_histogram}

pub record ConvertedMetric (F : Type 0) : Type 0 where
  pub family_name : String
  pub family_type : MetricType
  pub metric : Metric F

abbrev pub label_pair : String × String → LabelPair
label_pair (k, v) = record { name = k; value = v }

-- `if resource != nil { out = append(out, … resource_type …) }`
abbrev pub resource_pairs : Option MonitoredResource → List LabelPair
resource_pairs none = []
resource_pairs (some r) =
    map label_pair r.labels ++ record { name = "resource_type"; value = r.type } ∷ []

unfoldable pub build_label_pairs : {F : Type 0} → TimeSeries F → List LabelPair
build_label_pairs series = map label_pair series.metric_labels ++ resource_pairs series.resource

unfoldable pub append_label : List LabelPair → String → String → List LabelPair
append_label labels name value = labels ++ record { name = name; value = value } ∷ []

-- `time.Time.Unix` of a moment that may be missing; 0 then
abbrev pub start_unix : Option TimeInterval → ℤ
start_unix none = pos 0
start_unix (some iv) = elim iv.start_time [ none ↦ pos 0 | some st ↦ unix st ]

abbrev pub end_millis : Option TimeInterval → ℤ
end_millis none = pos 0
end_millis (some iv) = elim iv.end_time [ none ↦ pos 0 | some en ↦ unix_milli en ]

module _ {F : Type 0} where
  unfoldable pub point_start_unix : Point F → ℤ
  point_start_unix p = start_unix p.interval

  unfoldable pub point_end_millis : Point F → ℤ
  point_end_millis p = end_millis p.interval

  -- A metric with no timestamp of its own.
  abbrev pub untimed : List LabelPair → Value F → Metric F
  untimed labels value = record { label = labels; value = value; timestamp_ms = none }

module _ {F : Type 0} (fl : Float64 F) where
  unfoldable pub scalar_value : Point F → ValueType → F
  scalar_value p int64 = fl.of_int p.value.int64_value
  scalar_value p double = p.value.double_value
  scalar_value p distribution = fl.zero_float
  scalar_value p (other_type _) = fl.zero_float

  -- the case DISTRIBUTION, from the newest point's value
  abbrev pub convert_distribution :
      String → List LabelPair → Option (Distribution F) → Option (ConvertedMetric F)
  convert_distribution name labels none = none
  convert_distribution name labels (some dist) = some (record {
    family_name = name;
    family_type = histogram_metric;
    metric = untimed labels (histogram_value (build_histogram fl dist));
  })

  -- the switch on the metric kind, for a point of an int64 or double series
  unfoldable pub convert_scalar :
      String → List LabelPair → MetricKind → ValueType → Point F → Option (ConvertedMetric F)
  convert_scalar name labels cumulative value_type p =
      let labels' = append_label labels "start_time_unix" (format_int (point_start_unix p)) in
      some (record {
        family_name = name;
        family_type = counter_metric;
        metric = untimed labels' (counter_value (scalar_value p value_type));
      })
  convert_scalar name labels gauge value_type p = some (record {
    family_name = name;
    family_type = gauge_metric;
    metric = untimed labels (gauge_value (scalar_value p value_type));
  })
  convert_scalar name labels delta value_type p = some (record {
    family_name = name;
    family_type = gauge_metric;
    metric = untimed labels (gauge_value (scalar_value p value_type));
  })
  convert_scalar name labels (other_kind _) value_type p = none

  -- the switch on the value type; without a point, no case yields a metric
  unfoldable pub convert_points :
      String → List LabelPair → MetricKind → ValueType → List (Point F) → Option (ConvertedMetric F)
  convert_points name labels kind value_type [] = none
  convert_points name labels kind distribution (p ∷ _) =
      convert_distribution name labels p.value.distribution_value
  convert_points name labels kind int64 (p ∷ _) = convert_scalar name labels kind int64 p
  convert_points name labels kind double (p ∷ _) = convert_scalar name labels kind double p
  convert_points name labels kind (other_type _) (p ∷ _) = none

  unfoldable pub convert_series : String → TimeSeries F → Option (ConvertedMetric F)
  convert_series metric_type series =
      convert_points (prom_metric_name metric_type) (build_label_pairs series) series.metric_kind
        series.value_type series.points
