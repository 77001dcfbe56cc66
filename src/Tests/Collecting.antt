-- ===== src/Tests/Collecting.antt =====
-- internal/collector, Collect and its families, at the sample series.
use gcp_metrics_exporter.Common.{
  ◌≡◌, refl, ◌↔◌, true, List, [], ◌∷◌, map, All, IsDistinct, length, ◌≤◌,
}
use gcp_metrics_exporter.Errors.{Sentinel-discrete, is, ok}
use gcp_metrics_exporter.Api.Float.{IntFloat, int_floats}
use gcp_metrics_exporter.Api.Monitoring.{TimeSeries, MetricKind-discrete, ValueType-discrete}
use gcp_metrics_exporter.Api.Prom.{MetricFamily}
use gcp_metrics_exporter.Families.{no_families, add_sample, add_samples, collected}
use gcp_metrics_exporter.Families.Distinct.{distinct, without}
use mathlib.Core.List.{lookup}
use gcp_metrics_exporter.Collector.Convert.{
  convert_series, convert_points, build_label_pairs, append_label, point_start_unix,
  point_end_millis, scalar_value, convert_scalar,
}
use gcp_metrics_exporter.Api.Time.{unix, unix_milli}
use gcp_metrics_exporter.Common.Int.{div_floor, ◌-ℤ◌}
use gcp_metrics_exporter.Families.FamilyOf.{family_of, metrics_of, first_fresh}
use gcp_metrics_exporter.Families.Grouping.{collected-family_of}
use gcp_metrics_exporter.Collector.Naming.{is_separator, replace_separators, prom_metric_name}
use gcp_metrics_exporter.Collector.Collect.{
  sample_of, FamilyKey-discrete, collect_loop, absorb, drain,
}
use gcp_metrics_exporter.Collector.Collect.Ends.{Yields, EndsFrom, drain-EndsFrom, samples_of}
use gcp_metrics_exporter.Collector.Collect.Grouped.{families_of, IsComplete, drain-IsComplete}
use gcp_metrics_exporter.Collector.Collect.Names.{drain_names}
use gcp_metrics_exporter.Tests.Samples.{cpu, two_series, endless, gauge_series, counter_series}

drain-EndsFrom_example :
    (ss : List (TimeSeries IntFloat)) × Yields endless 0 ss
    × EndsFrom int_floats cpu "" true 1 endless 0 no_families ss
        (drain int_floats cpu "" true 1 endless)
drain-EndsFrom_example = drain-EndsFrom int_floats cpu "" true 1 endless

abbrev found_families : List (MetricFamily IntFloat)
found_families = families_of int_floats cpu "" true (gauge_series ∷ (counter_series ∷ []))

two_families : drain int_floats cpu "" true 5 two_series ≡ ok found_families
unfolding drain collect_loop is Sentinel-discrete absorb add_sample collected convert_series
    convert_points sample_of FamilyKey-discrete MetricKind-discrete ValueType-discrete
    prom_metric_name replace_separators build_label_pairs append_label point_start_unix
    point_end_millis scalar_value convert_scalar samples_of family_of unix unix_milli div_floor ◌-ℤ◌
    lookup metrics_of first_fresh distinct is_separator without
two_families = refl

drain-IsComplete_example :
    (ss : List (TimeSeries IntFloat)) × IsComplete int_floats cpu "" true 5 two_series
      found_families ss
drain-IsComplete_example =
    drain-IsComplete int_floats cpu "" true 5 two_series found_families two_families

drain_names_example :
    All (λ f. f.name ≡ prom_metric_name cpu) found_families
    × (IsDistinct (map (λ f. f.name) found_families) ↔ (length found_families ≤ 1))
drain_names_example = drain_names int_floats cpu "" true 5 two_series found_families two_families

collected-family_of_example :
    collected FamilyKey-discrete (
      add_samples FamilyKey-discrete
        (samples_of int_floats cpu "" true (gauge_series ∷ (counter_series ∷ [])))
        no_families)
    ≡ found_families
collected-family_of_example =
    collected-family_of FamilyKey-discrete
      (samples_of int_floats cpu "" true (gauge_series ∷ (counter_series ∷ [])))
