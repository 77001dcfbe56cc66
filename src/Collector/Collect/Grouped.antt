-- ===== src/Collector/Collect/Grouped.antt =====
-- The families of a successful Collect: the converted series grouped by name, kind and value type.
use mathlib.Core.Option
use mathlib.Core.Option.{some-injective}
use gcp_metrics_exporter.Common.{
  ℕ, ◌≤◌, ◌≡◌, sym, ap, ◌∙◌, String, Bool, true, List, map, length, arith,
}
use gcp_metrics_exporter.Errors.{Error, iterator_done, is, Result, ok, err}
use gcp_metrics_exporter.Api.Float.{Float64}
use gcp_metrics_exporter.Api.Monitoring.{TimeSeries}
use gcp_metrics_exporter.Api.Prom.{MetricFamily, nil_family}
use gcp_metrics_exporter.Families.{no_families}
use gcp_metrics_exporter.Families.FamilyOf.{family_of, sample_keys}
use gcp_metrics_exporter.Families.Grouping.{collected-family_of}
use gcp_metrics_exporter.Families.Distinct.{distinct}
use gcp_metrics_exporter.Collector.Collect.{Iterator, FamilyKey-discrete, drain}
use gcp_metrics_exporter.Collector.Collect.Ends.{
  Yields, samples_of, EndsFrom, at_end, at_failure, at_cap, drain-EndsFrom,
}

ok_injective : {A : Type 0} {a b : A} → ok a ≡ ok b → a ≡ b
ok_injective h = cc

module _ {F : Type 0} (fl : Float64 F) (metric_type help : String) (emit : Bool) where
  -- The families of the series: one for each key in order of first appearance.
  abbrev pub families_of : List (TimeSeries F) → List (MetricFamily F)
  families_of ss =
      let samples = samples_of fl metric_type help emit ss in
      map (λ k. Option.get_or (family_of FamilyKey-discrete samples k) nil_family)
        (distinct FamilyKey-discrete (sample_keys samples))

module _ {F : Type 0} (fl : Float64 F) (metric_type help : String) (emit : Bool) (max : ℕ)
    (next : Iterator F) where
  pub record IsComplete (fams : List (MetricFamily F)) (ss : List (TimeSeries F)) : Type 0 where
    pub yields : Yields next 0 ss
    pub within_cap : length ss ≤ max
    pub stop : Error
    pub stopped : next (length ss) ≡ err stop
    pub done : is stop iterator_done ≡ true
    pub grouped : fams ≡ families_of fl metric_type help emit ss

  ends-IsComplete :
      (fams : List (MetricFamily F)) (ss : List (TimeSeries F)) (r : Result (List (MetricFamily F)))
      → Yields next 0 ss
      → EndsFrom fl metric_type help emit max next 0 no_families ss r
      → r ≡ ok fams
      → IsComplete fams ss
  ends-IsComplete fams ss r y (at_end e h done low same) h' = record {
    yields = y;
    within_cap = omega arith;
    stop = e;
    stopped = ap next (omega arith) ∙ h;
    done = done;
    grouped =
        ok_injective (sym h' ∙ same)
        ∙ collected-family_of FamilyKey-discrete (samples_of fl metric_type help emit ss);
  }
  ends-IsComplete fams ss r y (at_failure e h other low same) h' = cc
  ends-IsComplete fams ss r y (at_cap full same) h' = cc

  -- If Collect's loop succeeds with some families, the iterator gave some series, at most as many as
  -- the cap, and then said it is done; the families are those series that convert, grouped by name,
  -- kind and value type in the order in which these first appeared. Series that convertSeries skips
  -- are in no family.
  pub drain-IsComplete :
      (fams : List (MetricFamily F))
      → drain fl metric_type help emit max next ≡ ok fams
      → (ss : List (TimeSeries F)) × IsComplete fams ss
  drain-IsComplete fams h =
      let (ss, yields, ends) = drain-EndsFrom fl metric_type help emit max next in
      (ss, ends-IsComplete fams ss _ yields ends h)
