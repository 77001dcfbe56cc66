-- ===== src/Gmp/Collect.antt =====
-- internal/gmp/collector.go: Collect and normalizeLabels. The labels of a sample stand in the order in
-- which the range statement visits them; the answer of Query is an argument.
pub mod Labels
pub mod Names
use Prim.Native.Char.{code}
use Prim.Native.String.{[], ◌∷◌, ◌++◌ as append}
use mathlib.Core.List.{lookup}
use gcp_metrics_exporter.Common.{
  String, Bool, true, false, not, ◌&&◌, Option, none, some, List, ◌==◌, nat_eq, if◌then◌else◌,
  String-discrete,
}
use gcp_metrics_exporter.Errors.{Result, ok, err, ◌>>=◌}
use gcp_metrics_exporter.Strings.{is_empty}
use gcp_metrics_exporter.Api.Time.{Time}
use gcp_metrics_exporter.Api.Prom.{LabelPair, Metric, MetricFamily, gauge_metric, gauge_value}
use gcp_metrics_exporter.Families.{Families, Sample, no_families, add_sample, collected}
use gcp_metrics_exporter.Collector.Naming.{metric_name_prefix}

-- gmp.Sample
pub record VectorSample (F : Type 0) : Type 0 where
  pub labels : List (String × String)
  pub value : F
  pub timestamp : Time

abbrev pub label_of : String → List (String × String) → Option String
label_of = lookup String-discrete

abbrev pub has_label : String → List (String × String) → Bool
has_label k labels = elim (label_of k labels) [ some _ ↦ true | none ↦ false ]

-- `if k == "monitored_resource" && !hasResourceType { k = "resource_type" }`
abbrev pub renamed : Bool → String → String
renamed has_resource_type k =
    if k == "monitored_resource" && not has_resource_type then "resource_type" else k

-- The loop of normalizeLabels.
unfoldable pub normalize_from : Bool → List (String × String) → List LabelPair
normalize_from has_resource_type List.[] = List.[]
normalize_from has_resource_type (List.◌∷◌ e rest) =
    let out = normalize_from has_resource_type rest in
    if e.0 == "__name__"
    then out
    else List.◌∷◌ (record { name = renamed has_resource_type (e.0); value = e.1 }) out

unfoldable pub normalize_labels : List (String × String) → List LabelPair
normalize_labels labels = normalize_from (has_label "resource_type" labels) labels

-- `strings.ReplaceAll(orig, ":", "_")`
unfoldable pub replace_colons : String → String
replace_colons [] = []
replace_colons (c ∷ s) = (if nat_eq (code c) b':' then "_" else c) ∷ replace_colons s

abbrev pub gmp_help : String → String
gmp_help orig = append "GMP metric " (append orig " (instant query, exported as gauge)")

-- The name, if the sample has one that is not empty.
unfoldable pub name_of : List (String × String) → Option String
name_of labels = elim (label_of "__name__" labels) [
  | none ↦ none
  | some orig ↦ if is_empty orig then none else some orig
]

module _ {F : Type 0} where
  unfoldable pub gauge_sample : String → VectorSample F → Sample String F
  gauge_sample orig s =
      let name = append metric_name_prefix (replace_colons orig) in
      record {
        key = name;
        fresh = record { name = name; type = gauge_metric; help = gmp_help orig; metric = List.[] };
        metric = record {
          label = normalize_labels s.labels;
          value = gauge_value s.value;
          timestamp_ms = none;
        };
      }

  -- One round of the loop.
  unfoldable pub absorb_sample : VectorSample F → Families String F → Families String F
  absorb_sample s st = elim (name_of s.labels) [
    | none ↦ st
    | some orig ↦ add_sample String-discrete (gauge_sample orig s) st
  ]

  unfoldable pub absorb_samples : List (VectorSample F) → Families String F → Families String F
  absorb_samples List.[] st = st
  absorb_samples (List.◌∷◌ s rest) st = absorb_samples rest (absorb_sample s st)

  -- Collect, once Query has answered.
  unfoldable pub collect_vector : Result (List (VectorSample F)) → Result (List (MetricFamily F))
  collect_vector answer = do
    samples ← answer
    ok (collected String-discrete (absorb_samples samples no_families))
