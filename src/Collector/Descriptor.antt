-- ===== src/Collector/Descriptor.antt =====
-- internal/collector/descriptor.go: the cache of metric units and the help text.
pub mod Cache
use Prim.Native.String.{[], ◌++◌ as append}
use mathlib.Core.List.{lookup}
use gcp_metrics_exporter.Common.{
  String, Bool, true, false, not, ◌&&◌, Option, none, some, List, ◌++◌, if◌then◌else◌,
  String-discrete,
}
use gcp_metrics_exporter.Errors.{Error, Result, ok, err}
use gcp_metrics_exporter.Strings.{is_empty}
use gcp_metrics_exporter.Api.Monitoring.{
  Aligner, align_rate, align_count, align_count_true, align_count_false, align_fraction_true,
  align_percent_change, other_aligner, Reducer, reduce_none, reduce_count, reduce_count_true,
  reduce_count_false, reduce_fraction_true, other_reducer, Code, ok_code, unknown, invalid_argument,
  deadline_exceeded, not_found, permission_denied, unauthenticated, resource_exhausted,
  unimplemented, other_code, Aggregation,
}
use gcp_metrics_exporter.Api.Sdk.{Sdk, GoLib}

-- DescriptorCache: the entries of the map from key to unit; the first entry of a key is its value.
abbrev pub DescriptorCache : Type 0
DescriptorCache = List (String × String)

unfoldable pub descriptor_key : String → String → String
descriptor_key project metric_type = append project (append "|" metric_type)

unfoldable pub descriptor_name : String → String → String
descriptor_name project metric_type =
    append "projects/" (append project (append "/metricDescriptors/" metric_type))

-- The codes of a failure that is cached: the descriptor will not become readable.
unfoldable pub is_permanent : Code → Bool
is_permanent not_found = true
is_permanent permission_denied = true
is_permanent unimplemented = true
is_permanent _ = false

-- GetMetricDescriptor's answer to a name: the descriptor's unit, or an error.
abbrev pub GetDescriptor : Type 0
GetDescriptor = String → Result String

module _ (sdk : Sdk) where
  -- What follows the call: the unit, and the cache with what is worth keeping.
  unfoldable pub remember : String → Result String → DescriptorCache → String × DescriptorCache
  remember key (ok u) cache = (u, List.◌∷◌ (key, u) cache)
  remember key (err e) cache =
      ([], if is_permanent (sdk.status_code e) then List.◌∷◌ (key, "") cache else cache)

  unfoldable pub unit : GetDescriptor → String → String → DescriptorCache → String × DescriptorCache
  unit get project metric_type cache =
      elim (lookup String-discrete (descriptor_key project metric_type) cache) [
        | some u ↦ (u, cache)
        | none ↦
            remember (descriptor_key project metric_type)
              (get (descriptor_name project metric_type)) cache
      ]

-- The unit after the aligner.
unfoldable pub aligned_unit : String → Aligner → String
aligned_unit base align_rate = append (if is_empty base then "1" else base) "/s"
aligned_unit base align_count = "1"
aligned_unit base align_count_true = "1"
aligned_unit base align_count_false = "1"
aligned_unit base align_fraction_true = "1"
aligned_unit base align_percent_change = "%"
aligned_unit base (other_aligner _) = base

-- The unit after the reducer.
unfoldable pub reduced_unit : String → Reducer → String
reduced_unit unit reduce_count = "1"
reduced_unit unit reduce_count_true = "1"
reduced_unit unit reduce_count_false = "1"
reduced_unit unit reduce_fraction_true = "1"
reduced_unit unit reduce_none = unit
reduced_unit unit (other_reducer _) = unit

unfoldable pub result_unit : String → Aligner → Reducer → String
result_unit base aligner reducer = reduced_unit (aligned_unit base aligner) reducer

-- `strings.Join(parts, ", ")`
unfoldable pub join_comma : List String → String
join_comma List.[] = ""
join_comma (List.◌∷◌ s List.[]) = s
join_comma (List.◌∷◌ s (List.◌∷◌ t rest)) = append s (append ", " (join_comma (List.◌∷◌ t rest)))

abbrev pub one : String → List String
one s = List.◌∷◌ s List.[]

abbrev pub is_reduce_none : Reducer → Bool
is_reduce_none reduce_none = true
is_reduce_none _ = false

module _ (sdk : Sdk) (lib : GoLib) where
  unfoldable pub help_parts : Aggregation → String → List String
  help_parts agg base =
      let shown = result_unit base agg.per_series_aligner agg.cross_series_reducer in
      one (append "aligner=" (sdk.aligner_name agg.per_series_aligner))
      ++ (one (append "alignment_period=" (lib.duration_string agg.alignment_period))
          ++ ((if is_reduce_none agg.cross_series_reducer
                then List.[]
                else one (append "reducer=" (sdk.reducer_name agg.cross_series_reducer)))
              ++ (if not (is_empty base) && not (is_empty shown)
                  then one (append "unit=" shown)
                  else List.[])))

  unfoldable pub help_text : String → Aggregation → String → String
  help_text metric_type agg base =
      append "GCP metric "
        (append metric_type (append " (" (append (join_comma (help_parts agg base)) ")")))
