-- ===== src/Gmp/Collect/Names.antt =====
-- internal/gmp/collector.go: the families that Collect makes and their names.
use mathlib.Core.Option
use gcp_metrics_exporter.Common.{
  ◌≡◌, refl, String, none, some, List, [], ◌∷◌, map, All, IsDistinct, inl, inr, Option-cases,
  String-discrete,
}
use gcp_metrics_exporter.Errors.{ok}
use gcp_metrics_exporter.Api.Prom.{MetricFamily, nil_family}
use gcp_metrics_exporter.Families.{Families, Sample, no_families, add_sample, add_samples}
use gcp_metrics_exporter.Families.Distinct.{distinct, distinct-IsDistinct}
use gcp_metrics_exporter.Families.FamilyOf.{sample_keys, family_of}
use gcp_metrics_exporter.Families.Grouping.{collected-family_of}
use gcp_metrics_exporter.Families.Made.{Made, Made-distinct}
use gcp_metrics_exporter.Gmp.Collect.{
  VectorSample, name_of, gauge_sample, absorb_sample, absorb_samples, collect_vector,
}

module _ {F : Type 0} where
  -- The samples that have a name.
  unfoldable pub named_samples : List (VectorSample F) → List (Sample String F)
  named_samples [] = []
  named_samples (s ∷ ss) = elim (name_of s.labels) [
    | none ↦ named_samples ss
    | some orig ↦ gauge_sample orig s ∷ named_samples ss
  ]

  absorb_samples-add :
      (ss : List (VectorSample F)) (st : Families String F)
      → absorb_samples ss st ≡ add_samples String-discrete (named_samples ss) st
  unfolding absorb_samples absorb_sample named_samples add_samples
  absorb_samples-add [] st = refl
  absorb_samples-add (s ∷ ss) st = elim (Option-cases (name_of s.labels)) [
    | inl e ↦ rw (absorb_samples, absorb_sample, named_samples, e) (absorb_samples-add ss st)
    | inr (orig, e) ↦
        rw (absorb_samples, absorb_sample, named_samples, add_samples, e)
          (absorb_samples-add ss (add_sample String-discrete (gauge_sample orig s) st))
  ]

  IsNamed : String → MetricFamily F → Type 0
  IsNamed k fresh = fresh.name ≡ k

  named_samples-All :
      (ss : List (VectorSample F)) → All (λ s. IsNamed s.key s.fresh) (named_samples ss)
  unfolding named_samples gauge_sample IsNamed
  named_samples-All [] = tt
  named_samples-All (s ∷ ss) = elim (Option-cases (name_of s.labels)) [
    | inl e ↦ rw (named_samples, e) (named_samples-All ss)
    | inr (orig, e) ↦ rw (named_samples, e) (refl, named_samples-All ss)
  ]

  abbrev pub grouped : List (Sample String F) → List String → List (MetricFamily F)
  grouped samples ks = map (λ k. Option.get_or (family_of String-discrete samples k) nil_family) ks

  family_of-IsNamed :
      (samples : List (Sample String F)) (k : String)
      → Made String-discrete IsNamed samples k
      → (Option.get_or (family_of String-discrete samples k) nil_family).name ≡ k
  unfolding family_of IsNamed
  family_of-IsNamed samples k (fresh, found, named) = rw (found, family_of) named

  names-grouped :
      (samples : List (Sample String F)) (ks : List String)
      → All (Made String-discrete IsNamed samples) ks
      → map (λ f. f.name) (grouped samples ks) ≡ ks
  unfolding family_of IsNamed
  names-grouped samples [] h = refl
  names-grouped samples (k ∷ ks) (made, h) =
      rw (family_of-IsNamed samples k made, names-grouped samples ks h) refl

  -- When Query succeeds Collect does, and its families are the samples that have a name, grouped by
  -- exported name: one family for each such name, in the order of first appearance, so that no two
  -- families have the same name.
  pub collect_vector-IsDistinct :
      (ss : List (VectorSample F))
      → let fams =
          grouped (named_samples ss) (distinct String-discrete (sample_keys (named_samples ss))) in
        (collect_vector (ok ss) ≡ ok fams)
        × ((map (λ f. f.name) fams ≡ distinct String-discrete (sample_keys (named_samples ss)))
            × IsDistinct (map (λ f. f.name) fams))
  unfolding collect_vector
  collect_vector-IsDistinct ss =
      let samples = named_samples ss in
      let ks = distinct String-discrete (sample_keys samples) in
      let names : map (λ f. f.name) (grouped samples ks) ≡ ks =
        names-grouped samples ks
          (Made-distinct String-discrete IsNamed samples (named_samples-All ss)) in
      (
        rw (absorb_samples-add ss no_families, collected-family_of String-discrete samples) refl,
        (names, rw names (distinct-IsDistinct String-discrete (sample_keys samples))),
      )
