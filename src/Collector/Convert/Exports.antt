-- ===== src/Collector/Convert/Exports.antt =====
-- What a converted series says, against the documented table of metric kinds.
use mathlib.Core.List.{head?}
use mathlib.Core.Path.{subst}
use mathlib.Core.Option.{some-injective}
use gcp_metrics_exporter.Common.{
  ◌≡◌, refl, ◌↔◌, ◌⊎◌, inl, inr, String, Option, none, some, List, [], ◌∷◌, ◌++◌, Option-cases,
  arith,
}
use gcp_metrics_exporter.Strings.{format_int}
use gcp_metrics_exporter.Api.Float.{Float64}
use gcp_metrics_exporter.Api.Monitoring.{
  MetricKind, gauge, delta, cumulative, other_kind, ValueType, int64, double, distribution,
  other_type, Distribution, Point, TimeSeries,
}
use gcp_metrics_exporter.Api.Prom.{
  MetricType, gauge_metric, counter_metric, histogram_metric, LabelPair, gauge_value, counter_value,
  histogram_value, Metric,
}
use gcp_metrics_exporter.Collector.Naming.{prom_metric_name}
use gcp_metrics_exporter.Collector.Histogram.{build_histogram}
use gcp_metrics_exporter.Collector.Convert.{
  ConvertedMetric, build_label_pairs, append_label, start_unix, point_start_unix, scalar_value,
  convert_distribution, convert_scalar, convert_points, convert_series,
}

-- The table of the README: the Prometheus type of each metric kind and value type.
abbrev pub prom_type : MetricKind → ValueType → Option MetricType
prom_type kind distribution = some histogram_metric
prom_type kind (other_type _) = none
prom_type gauge int64 = some gauge_metric
prom_type delta int64 = some gauge_metric
prom_type cumulative int64 = some counter_metric
prom_type (other_kind _) int64 = none
prom_type gauge double = some gauge_metric
prom_type delta double = some gauge_metric
prom_type cumulative double = some counter_metric
prom_type (other_kind _) double = none

module _ {F : Type 0} (fl : Float64 F) where
  -- The number in a point of an int64 or double series.
  abbrev pub IsReading : ValueType → Point F → F → Type 0
  IsReading int64 p x = x ≡ fl.of_int p.value.int64_value
  IsReading double p x = x ≡ p.value.double_value
  IsReading _ p x = ⊥

  -- The value and the labels that a type of metric has, from the newest point and the common labels.
  abbrev pub Shows : MetricType → ValueType → Point F → List LabelPair → Metric F → Type 0
  Shows gauge_metric vt p labels m =
      (x : F) × IsReading vt p x × (m.value ≡ gauge_value x) × (m.label ≡ labels)
  Shows counter_metric vt p labels m =
      (x : F) × IsReading vt p x
      × (m.value ≡ counter_value x)
      × (m.label
          ≡ labels
            ++ record { name = "start_time_unix"; value = format_int (start_unix p.interval) } ∷ [])
  Shows histogram_metric vt p labels m =
      (d : Distribution F) × (p.value.distribution_value ≡ some d)
      × (m.value ≡ histogram_value (build_histogram fl d))
      × (m.label ≡ labels)

  pub record Exports (metric_type : String) (series : TimeSeries F) (c : ConvertedMetric F)
      : Type 0 where
    pub name : c.family_name ≡ prom_metric_name metric_type
    pub type : prom_type series.metric_kind series.value_type ≡ some c.family_type
    pub newest : Point F
    pub first : head? series.points ≡ some newest
    pub shown : Shows c.family_type series.value_type newest (build_label_pairs series) c.metric
    pub untimed : c.metric.timestamp_ms ≡ none

  -- Of an unsupported kind or type, with no point, or a distribution whose newest point holds none.
  abbrev pub Skips : MetricKind → ValueType → List (Point F) → Type 0
  Skips kind vt points =
      (prom_type kind vt ≡ none)
      ⊎ (points ≡ [])
      ⊎ ((p : Point F) × (head? points ≡ some p)
          × (vt ≡ distribution)
          × (p.value.distribution_value ≡ none))

  abbrev pub IsSkipped : TimeSeries F → Type 0
  IsSkipped series = Skips series.metric_kind series.value_type series.points

  abbrev Found :
      MetricKind → ValueType → List (Point F) → List LabelPair → String → ConvertedMetric F → Type 0
  Found kind vt points labels name c =
      (c.family_name ≡ name)
      × (prom_type kind vt ≡ some c.family_type)
      × (c.metric.timestamp_ms ≡ none)
      × (p : Point F) × (head? points ≡ some p)
      × Shows c.family_type vt p labels c.metric

  convert_points-Found :
      (name : String) (labels : List LabelPair) (kind : MetricKind) (vt : ValueType)
      (points : List (Point F)) (c : ConvertedMetric F)
      → convert_points fl name labels kind vt points ≡ some c
      → Found kind vt points labels name c
  unfolding convert_points convert_scalar scalar_value append_label point_start_unix
  convert_points-Found name labels kind vt [] c h = cc
  convert_points-Found name labels kind distribution (p ∷ rest) c h =
      elim (Option-cases p.value.distribution_value) [
        | inl missing ↦ cc
        | inr (d, given) ↦
            subst (Found kind distribution (p ∷ rest) labels name)
              (some-injective _ _ (rw (given, convert_distribution) at h))
              (refl, refl, refl, p, refl, (d, given, refl, refl))
      ]
  convert_points-Found name labels gauge int64 (p ∷ rest) c h =
      subst (Found gauge int64 (p ∷ rest) labels name) (some-injective _ _ h)
        (refl, refl, refl, p, refl, (_, refl, refl, refl))
  convert_points-Found name labels delta int64 (p ∷ rest) c h =
      subst (Found delta int64 (p ∷ rest) labels name) (some-injective _ _ h)
        (refl, refl, refl, p, refl, (_, refl, refl, refl))
  convert_points-Found name labels cumulative int64 (p ∷ rest) c h =
      subst (Found cumulative int64 (p ∷ rest) labels name) (some-injective _ _ h)
        (refl, refl, refl, p, refl, (_, refl, refl, refl))
  convert_points-Found name labels (other_kind _) int64 (p ∷ _) c h = cc
  convert_points-Found name labels gauge double (p ∷ rest) c h =
      subst (Found gauge double (p ∷ rest) labels name) (some-injective _ _ h)
        (refl, refl, refl, p, refl, (_, refl, refl, refl))
  convert_points-Found name labels delta double (p ∷ rest) c h =
      subst (Found delta double (p ∷ rest) labels name) (some-injective _ _ h)
        (refl, refl, refl, p, refl, (_, refl, refl, refl))
  convert_points-Found name labels cumulative double (p ∷ rest) c h =
      subst (Found cumulative double (p ∷ rest) labels name) (some-injective _ _ h)
        (refl, refl, refl, p, refl, (_, refl, refl, refl))
  convert_points-Found name labels (other_kind _) double (p ∷ _) c h = cc
  convert_points-Found name labels kind (other_type _) (p ∷ _) c h = cc

  -- A converted series is named after the metric type, has the documented Prometheus type, shows the
  -- newest point's value under the series' labels (a counter adds its start time) and has no
  -- timestamp yet.
  pub convert_series-Exports :
      (metric_type : String) (series : TimeSeries F) (c : ConvertedMetric F)
      → convert_series fl metric_type series ≡ some c
      → Exports metric_type series c
  unfolding convert_series
  convert_series-Exports metric_type series c h =
      let (name, type, untimed, newest, first, shown) =
        convert_points-Found (prom_metric_name metric_type) (build_label_pairs series)
          series.metric_kind series.value_type series.points c h in
      record {
        name = name;
        type = type;
        newest = newest;
        first = first;
        shown = shown;
        untimed = untimed;
      }

  convert_points-none :
      (name : String) (labels : List LabelPair) (kind : MetricKind) (vt : ValueType)
      (points : List (Point F))
      → convert_points fl name labels kind vt points ≡ none
      → Skips kind vt points
  unfolding convert_points convert_scalar
  convert_points-none name labels kind vt [] h = inr (inl refl)
  convert_points-none name labels kind distribution (p ∷ rest) h =
      inr (inr (p, refl, refl, ground arith))
  convert_points-none name labels gauge int64 (p ∷ rest) h = cc
  convert_points-none name labels delta int64 (p ∷ rest) h = cc
  convert_points-none name labels cumulative int64 (p ∷ rest) h = cc
  convert_points-none name labels (other_kind _) int64 (p ∷ rest) h = inl refl
  convert_points-none name labels gauge double (p ∷ rest) h = cc
  convert_points-none name labels delta double (p ∷ rest) h = cc
  convert_points-none name labels cumulative double (p ∷ rest) h = cc
  convert_points-none name labels (other_kind _) double (p ∷ rest) h = inl refl
  convert_points-none name labels kind (other_type _) (p ∷ rest) h = inl refl

  convert_points-Skips :
      (name : String) (labels : List LabelPair) (kind : MetricKind) (vt : ValueType)
      (points : List (Point F))
      → Skips kind vt points
      → convert_points fl name labels kind vt points ≡ none
  unfolding convert_points convert_scalar
  convert_points-Skips name labels kind vt [] h = refl
  convert_points-Skips name labels kind distribution (p ∷ rest) h = ground arith
  convert_points-Skips name labels kind (other_type _) (p ∷ rest) h = refl
  convert_points-Skips name labels (other_kind _) int64 (p ∷ rest) h = refl
  convert_points-Skips name labels (other_kind _) double (p ∷ rest) h = refl
  convert_points-Skips name labels kind int64 (p ∷ rest) h = absurd (ground arith)
  convert_points-Skips name labels kind double (p ∷ rest) h = absurd (ground arith)

  -- A series is skipped exactly when its kind or value type has no Prometheus type, it has no point,
  -- or it is a distribution whose newest point holds none.
  pub convert_series_skips_iff :
      (metric_type : String) (series : TimeSeries F)
      → (convert_series fl metric_type series ≡ none) ↔ IsSkipped series
  unfolding convert_series
  convert_series_skips_iff metric_type series = (
    convert_points-none (prom_metric_name metric_type) (build_label_pairs series) series.metric_kind
        series.value_type series.points,
    convert_points-Skips (prom_metric_name metric_type) (build_label_pairs series)
        series.metric_kind series.value_type series.points,
  )
