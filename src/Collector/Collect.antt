-- ===== src/Collector/Collect.antt =====
-- internal/collector/collector.go: Collect. The clock is a moment that is read once, the iterator a
-- function from the number of the call of Next to its answer.
pub mod Ends
pub mod Grouped
pub mod Names
use mathlib.Core.Option
use Prim.Native.String.{◌++◌ as append}
use gcp_metrics_exporter.Common.{
  ℕ, zero, suc, String, Bool, true, false, Option, none, some, List, [], ◌∷◌, ltb, if◌then◌else◌,
  String-discrete,
}
use gcp_metrics_exporter.Common.Int.{pos}
use gcp_metrics_exporter.Errors.{
  Error, sentinel, text, wrap, max_series_exceeded, iterator_done, is, Result, ok, err,
}
use gcp_metrics_exporter.Strings.{format_int}
use gcp_metrics_exporter.Api.Float.{Float64}
use gcp_metrics_exporter.Api.Time.{Time}
use gcp_metrics_exporter.Api.Context.{Context}
use gcp_metrics_exporter.Api.Monitoring.{
  MetricKind, MetricKind-discrete, ValueType, ValueType-discrete, TimeSeries, ListTimeSeriesRequest,
}
use gcp_metrics_exporter.Api.Prom.{Metric, MetricFamily}
use gcp_metrics_exporter.Api.Sdk.{Sdk, GoLib}
use gcp_metrics_exporter.Families.{Families, Sample, no_families, add_sample, collected}
use gcp_metrics_exporter.Collector.Params.{QueryParams}
use gcp_metrics_exporter.Collector.Request.{build_request}
use gcp_metrics_exporter.Collector.Convert.{ConvertedMetric, point_end_millis, convert_series}
use gcp_metrics_exporter.Collector.Descriptor.{GetDescriptor, DescriptorCache, unit, help_text}

-- TimeSeriesIterator: what the n-th call of Next returns.
abbrev pub Iterator : Type 0 → Type 0
Iterator F = ℕ → Result (TimeSeries F)

-- MetricClient
pub record MetricClient (F : Type 0) : Type 0 where
  pub list_time_series : Context → ListTimeSeriesRequest → Iterator F
  pub get_metric_descriptor : Context → GetDescriptor

pub record FamilyKey : Type 0 where
  pub name : String
  pub kind : MetricKind
  pub value_type : ValueType

unfoldable pub FamilyKey-discrete : Discrete FamilyKey
unfolding MetricKind-discrete ValueType-discrete
FamilyKey-discrete = hlevel (String-discrete, MetricKind-discrete, ValueType-discrete)

abbrev pub too_many : ℕ → Error
too_many max = wrap "" (sentinel max_series_exceeded) (append ": limit=" (format_int (pos max)))

module _ {F : Type 0} (fl : Float64 F) (metric_type help : String) (emit_timestamps : Bool) where
  -- `if params.EmitTimestamps { if pts := …; len(pts) > 0 { … } }`
  abbrev pub stamp : TimeSeries F → Metric F → Metric F
  stamp series m =
      if emit_timestamps
      then elim series.points [
        | [] ↦ m
        | p ∷ _ ↦ record m { timestamp_ms = some (point_end_millis p) }
      ]
      else m

  unfoldable pub sample_of : TimeSeries F → ConvertedMetric F → Sample FamilyKey F
  sample_of series c = record {
    key = record {
      name = c.family_name;
      kind = series.metric_kind;
      value_type = series.value_type;
    };
    fresh = record { name = c.family_name; type = c.family_type; help = help; metric = [] };
    metric = stamp series c.metric;
  }

  -- One series that is within the cap: skipped, or added to its family.
  unfoldable pub absorb : TimeSeries F → Families FamilyKey F → Families FamilyKey F
  absorb series st = elim (convert_series fl metric_type series) [
    | none ↦ st
    | some c ↦ add_sample FamilyKey-discrete (sample_of series c) st
  ]

  module _ (max : ℕ) (next : Iterator F) where
    -- The loop, on fuel. Every call of Next so far gave a series, so `count` numbers the next call;
    -- `none` means that the fuel ran out.
    unfoldable pub collect_loop :
        ℕ → ℕ → Families FamilyKey F → Option (Result (List (MetricFamily F)))
    collect_loop zero count st = none
    collect_loop (suc fuel) count st = elim (next count) [
      | err e ↦
          if is e iterator_done then some (ok (collected FamilyKey-discrete st)) else some (err e)
      | ok series ↦
          let rest = collect_loop fuel (suc count) (absorb series st) in
          if ltb max (suc count) then some (err (too_many max)) else rest
    ]

-- GCPCollector, its descriptor cache apart
pub record GcpCollector (F : Type 0) : Type 0 where
  pub client : MetricClient F
  pub max_series : ℕ

-- The loop with enough fuel; the last value is never taken (collect_loop-Ends).
unfoldable pub drain :
    {F : Type 0}
    → Float64 F
    → String
    → String
    → Bool
    → ℕ
    → Iterator F
    → Result (List (MetricFamily F))
drain fl metric_type help emit max next =
    Option.get_or (collect_loop fl metric_type help emit max next (suc max) 0 no_families)
      (err (text ""))

module _ {F : Type 0} (fl : Float64 F) (sdk : Sdk) (lib : GoLib) where
  unfoldable pub collect :
      GcpCollector F
      → Time
      → Context
      → QueryParams
      → DescriptorCache
      → Result (List (MetricFamily F)) × DescriptorCache
  collect c now ctx params cache = elim (build_request sdk lib now params) [
    | err e ↦ (err e, cache)
    | ok req ↦
        let it = c.client.list_time_series ctx req in
        let (base, cache') =
          unit sdk (c.client.get_metric_descriptor ctx) params.project_id params.metric_type
            cache in
        let help = help_text sdk lib params.metric_type req.aggregation base in
        (drain fl params.metric_type help params.emit_timestamps c.max_series it, cache')
  ]
