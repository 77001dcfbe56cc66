-- ===== src/Tests/Converting.antt =====
-- internal/collector, the conversion of a series and of a distribution, at the samples.
use gcp_metrics_exporter.Api.Prom.{gauge_metric, gauge_value}
use gcp_metrics_exporter.Common.{
  ◌+◌, ◌^◌, ◌≡◌, ◌≢◌, ◌≤◌, ◌<◌, refl, ◌↔◌, ◌||◌, none, some, All, AreDisjoint, IsDistinct, length,
  get_or, take, arith,
}
use gcp_metrics_exporter.Common.Int.{pos, pos_part}
use gcp_metrics_exporter.Api.Float.{IntFloat, int_floats}
use gcp_metrics_exporter.Api.Monitoring.{linear_buckets}
use gcp_metrics_exporter.Collector.Naming.{
  is_name_char, is_separator, AllChars, IsMetricName, prom_metric_name, prom_metric_name_valid_iff,
}
use gcp_metrics_exporter.Collector.Convert.{
  ConvertedMetric, untimed, build_label_pairs, convert_series, convert_points, convert_scalar,
  scalar_value,
}
use gcp_metrics_exporter.Collector.Convert.Exports.{
  Exports, IsSkipped, convert_series-Exports, convert_series_skips_iff,
}
use gcp_metrics_exporter.Collector.Convert.Labels.{
  label_names, keys, build_label_pairs-IsDistinct_iff,
}
use gcp_metrics_exporter.Collector.Histogram.{
  bounds_of, linear_from, clamp, bucket_bounds, build_histogram,
}
use gcp_metrics_exporter.Collector.Histogram.Sums.{
  Describes, sum_counts, cumulative_counts, upper_bounds, build_histogram-Describes,
  build_histogram_monotone,
}
use gcp_metrics_exporter.Collector.Histogram.Layout.{
  HasLayout, linear_bound, bucket_bounds-HasLayout, linear_bucket_lags,
}
use gcp_metrics_exporter.Tests.Samples.{cpu, vm, gauge_series, odd_series, two_buckets, ten_wide}

abbrev converted : ConvertedMetric IntFloat
converted = record {
  family_name = prom_metric_name cpu;
  family_type = gauge_metric;
  metric = untimed (build_label_pairs gauge_series) (gauge_value (some (pos 7)));
}

gauge_converts : convert_series int_floats cpu gauge_series ≡ some converted
unfolding int_floats convert_series convert_points convert_scalar scalar_value
gauge_converts = refl

convert_series-Exports_example : Exports int_floats cpu gauge_series converted
convert_series-Exports_example =
    convert_series-Exports int_floats cpu gauge_series converted gauge_converts

convert_series_skips_iff_example :
    (convert_series int_floats cpu odd_series ≡ none) ↔ IsSkipped int_floats odd_series
convert_series_skips_iff_example = convert_series_skips_iff int_floats cpu odd_series

build_label_pairs-IsDistinct_iff_example :
    IsDistinct (label_names (build_label_pairs gauge_series)) ↔ (
      AreDisjoint (keys gauge_series.metric_labels) (keys vm.labels)
      × All (λ k. k ≢ "resource_type") (keys gauge_series.metric_labels)
      × All (λ k. k ≢ "resource_type") (keys vm.labels))
build_label_pairs-IsDistinct_iff_example =
    build_label_pairs-IsDistinct_iff gauge_series vm refl (tt, tt) (tt, tt)

few : sum_counts two_buckets.bucket_counts < 2 ^ 64
unfolding sum_counts
few = omega arith

one_bound : 1 ≤ length (bucket_bounds int_floats two_buckets.bucket_options)
unfolding bucket_bounds bounds_of linear_from clamp
one_bound = omega arith

build_histogram-Describes_example :
    Describes int_floats
      (bucket_bounds int_floats two_buckets.bucket_options)
      two_buckets
      (build_histogram int_floats two_buckets)
build_histogram-Describes_example = build_histogram-Describes int_floats two_buckets

build_histogram_monotone_example :
    get_or (cumulative_counts (build_histogram int_floats two_buckets).bucket) 0 0
    ≤ get_or (cumulative_counts (build_histogram int_floats two_buckets).bucket) 1 0
build_histogram_monotone_example =
    build_histogram_monotone int_floats two_buckets 0 1 few (omega arith) one_bound

bucket_bounds-HasLayout_example :
    HasLayout int_floats
      (linear_buckets (some ten_wide))
      (bucket_bounds int_floats (some (linear_buckets (some ten_wide))))
bucket_bounds-HasLayout_example =
    bucket_bounds-HasLayout int_floats (linear_buckets (some ten_wide))

linear_bucket_lags_example :
    (get_or (upper_bounds (build_histogram int_floats two_buckets).bucket) 1 int_floats.zero_float
      ≡ linear_bound int_floats ten_wide (1 + 1))
    × (get_or (cumulative_counts (build_histogram int_floats two_buckets).bucket) 1 0
          + pos_part (get_or two_buckets.bucket_counts 2 (pos 0))
        ≡ sum_counts (take 3 two_buckets.bucket_counts))
linear_bucket_lags_example =
    linear_bucket_lags int_floats ten_wide two_buckets 1 refl few (omega arith)

prom_metric_name_valid_iff_example :
    IsMetricName (prom_metric_name cpu) ↔ AllChars (λ c. is_name_char c || is_separator c) cpu
prom_metric_name_valid_iff_example = prom_metric_name_valid_iff cpu
