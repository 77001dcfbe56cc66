-- ===== src/Collector/Collect/Names.antt =====
-- The names of the families of one Collect.
use mathlib.Core.Option
use gcp_metrics_exporter.Common.{
  ℕ, ◌≤◌, ◌≡◌, sym, ◌∙◌, ◌↔◌, String, Bool, List, [], ◌∷◌, map, length, All, IsDistinct,
  Option-cases, inl, inr, arith,
}
use gcp_metrics_exporter.Errors.{ok}
use gcp_metrics_exporter.Api.Float.{Float64}
use gcp_metrics_exporter.Api.Monitoring.{TimeSeries}
use gcp_metrics_exporter.Api.Prom.{MetricFamily, nil_family}
use gcp_metrics_exporter.Families.{Sample}
use gcp_metrics_exporter.Families.FamilyOf.{family_of, sample_keys}
use gcp_metrics_exporter.Families.Distinct.{distinct}
use gcp_metrics_exporter.Families.Made.{Made, Made-distinct}
use gcp_metrics_exporter.Collector.Naming.{prom_metric_name}
use gcp_metrics_exporter.Collector.Convert.{convert_series}
use gcp_metrics_exporter.Collector.Convert.Exports.{convert_series-Exports}
use gcp_metrics_exporter.Collector.Collect.{
  Iterator, FamilyKey, FamilyKey-discrete, sample_of, drain,
}
use gcp_metrics_exporter.Collector.Collect.Ends.{samples_of}
use gcp_metrics_exporter.Collector.Collect.Grouped.{families_of, drain-IsComplete}

All-map :
    {A B : Type 0} (P : A → Type 0) (Q : B → Type 0) (f : A → B) (xs : List A)
    → ((x : A) → P x → Q (f x))
    → All P xs
    → All Q (map f xs)
All-map P Q f [] each h = tt
All-map P Q f (x ∷ xs) each h = (each x h.0, All-map P Q f xs each h.1)

module _ {F : Type 0} (fl : Float64 F) (metric_type help : String) (emit : Bool) where
  abbrev Named : MetricFamily F → Type 0
  Named f = f.name ≡ prom_metric_name metric_type

  samples_of-Named :
      (ss : List (TimeSeries F)) → All (λ s. Named s.fresh) (samples_of fl metric_type help emit ss)
  unfolding samples_of sample_of
  samples_of-Named [] = tt
  samples_of-Named (s ∷ ss) = elim (Option-cases (convert_series fl metric_type s)) [
    | inl skipped ↦ rw (skipped, samples_of) (samples_of-Named ss)
    | inr (c, converted) ↦
        rw (converted, samples_of)
          ((convert_series-Exports fl metric_type s c converted).name, samples_of-Named ss)
  ]

  family_of-Named :
      (samples : List (Sample FamilyKey F)) (k : FamilyKey)
      → Made FamilyKey-discrete (λ _ fresh. Named fresh) samples k
      → Named (Option.get_or (family_of FamilyKey-discrete samples k) nil_family)
  unfolding family_of
  family_of-Named samples k (fresh, found, named) = rw (found, family_of) named

  families_of-Named :
      (ss : List (TimeSeries F)) → All Named (families_of fl metric_type help emit ss)
  families_of-Named ss =
      let samples = samples_of fl metric_type help emit ss in
      All-map (Made FamilyKey-discrete (λ _ fresh. Named fresh) samples) Named _
        (distinct FamilyKey-discrete (sample_keys samples)) (family_of-Named samples)
        (Made-distinct FamilyKey-discrete (λ _ fresh. Named fresh) samples (samples_of-Named ss))

  IsDistinct-names :
      (fams : List (MetricFamily F))
      → All Named fams
      → IsDistinct (map (λ f. f.name) fams) ↔ (length fams ≤ 1)
  IsDistinct-names [] h = (λ _. omega arith, λ _. tt)
  IsDistinct-names (f ∷ []) h = (λ _. omega arith, λ _. (tt, tt))
  IsDistinct-names (f ∷ g ∷ rest) h =
      (λ d. absurd (d.0.0 (h.0 ∙ sym h.1.0)), λ low. absurd (omega arith))

  -- Every family of a successful Collect has the exported name of the metric type; so the names of the
  -- families are distinct exactly when there is at most one family.
  pub drain_names :
      (max : ℕ) (next : Iterator F) (fams : List (MetricFamily F))
      → drain fl metric_type help emit max next ≡ ok fams
      → All (λ f. f.name ≡ prom_metric_name metric_type) fams
        × (IsDistinct (map (λ f. f.name) fams) ↔ (length fams ≤ 1))
  drain_names max next fams h =
      let (ss, complete) = drain-IsComplete fl metric_type help emit max next fams h in
      let named : All Named fams = rw complete.grouped (families_of-Named ss) in
      (named, IsDistinct-names fams named)
