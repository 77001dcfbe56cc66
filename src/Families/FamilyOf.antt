-- ===== src/Families/FamilyOf.antt =====
-- The family of a key among some samples, and how one more sample changes it.
use mathlib.Core.List.{append_assoc, append-nil}
use mathlib.Core.Option.{some-injective}
use gcp_metrics_exporter.Common.{
  ◌≡◌, refl, ap, ◌∙◌, ◌≢◌, Option, none, some, List, [], ◌∷◌, ◌++◌, map, ite, arith, Option-cases,
  inl, inr,
}
use gcp_metrics_exporter.Api.Prom.{Metric, MetricFamily}
use gcp_metrics_exporter.Families.Distinct.{
  distinct, without, without-append_one, without_self, without_other,
}
use gcp_metrics_exporter.Families.{Sample, append_metric}

abbrev pub sample_keys : {K F : Type 0} → List (Sample K F) → List K
sample_keys = map (λ s. s.key)

abbrev pub family_from :
    {F : Type 0} → Option (MetricFamily F) → List (Metric F) → Option (MetricFamily F)
family_from none metrics = none
family_from (some fresh) metrics = some (record fresh { metric = fresh.metric ++ metrics })

module _ {K F : Type 0} (dec : Discrete K) where
  -- The first sample of a key gives the family.
  unfoldable pub first_fresh : K → List (Sample K F) → Option (MetricFamily F)
  first_fresh k [] = none
  first_fresh k (s ∷ rest) = ite (dec k s.key) (some s.fresh) (first_fresh k rest)

  unfoldable pub metrics_of : K → List (Sample K F) → List (Metric F)
  metrics_of k [] = []
  metrics_of k (s ∷ rest) = ite (dec k s.key) (s.metric ∷ metrics_of k rest) (metrics_of k rest)

  -- The family of a key among the samples.
  unfoldable pub family_of : List (Sample K F) → K → Option (MetricFamily F)
  family_of samples k = family_from (first_fresh k samples) (metrics_of k samples)

  metrics_of-append_one :
      (k : K) (xs : List (Sample K F)) (s : Sample K F)
      → metrics_of k (xs ++ s ∷ []) ≡ metrics_of k xs ++ metrics_of k (s ∷ [])
  unfolding metrics_of
  metrics_of-append_one k [] s = refl
  metrics_of-append_one k (y ∷ xs) s = ground (arith, metrics_of-append_one k xs s)

  metrics_of-none :
      (k : K) (xs : List (Sample K F)) → first_fresh k xs ≡ none → metrics_of k xs ≡ []
  unfolding metrics_of first_fresh
  metrics_of-none k [] h = refl
  metrics_of-none k (s ∷ xs) h = ground (arith, metrics_of-none k xs)

  first_fresh_seen :
      (k : K) (xs : List (Sample K F)) (s : Sample K F) (fresh : MetricFamily F)
      → first_fresh k xs ≡ some fresh
      → first_fresh k (xs ++ s ∷ []) ≡ some fresh
  unfolding first_fresh
  first_fresh_seen k [] s fresh h = cc
  first_fresh_seen k (y ∷ xs) s fresh h = ground (arith, first_fresh_seen k xs s fresh)

  first_fresh_new :
      (k : K) (xs : List (Sample K F)) (s : Sample K F)
      → first_fresh k xs ≡ none
      → first_fresh k (xs ++ s ∷ []) ≡ first_fresh k (s ∷ [])
  unfolding first_fresh
  first_fresh_new k [] s h = refl
  first_fresh_new k (y ∷ xs) s h = ground (arith, first_fresh_new k xs s)

  pub distinct_new :
      (xs : List (Sample K F)) (s : Sample K F)
      → first_fresh s.key xs ≡ none
      → distinct dec (sample_keys (xs ++ s ∷ [])) ≡ distinct dec (sample_keys xs) ++ s.key ∷ []
  unfolding distinct first_fresh without
  distinct_new [] s h = refl
  distinct_new (y ∷ xs) s h =
      let other : y.key ≢ s.key = ground arith in
      let ih : distinct dec (sample_keys (xs ++ s ∷ []))
          ≡ distinct dec (sample_keys xs) ++ s.key ∷ [] =
        distinct_new xs s (ground arith) in
      ap (λ l. y.key ∷ without dec y.key l) ih
      ∙ ap (◌∷◌ y.key) (
          without-append_one dec y.key (distinct dec (sample_keys xs)) s.key
          ∙ ap (λ l. without dec y.key (distinct dec (sample_keys xs)) ++ l)
              (without_other dec y.key s.key other))

  pub distinct_seen :
      (xs : List (Sample K F)) (s : Sample K F) (fresh : MetricFamily F)
      → first_fresh s.key xs ≡ some fresh
      → distinct dec (sample_keys (xs ++ s ∷ [])) ≡ distinct dec (sample_keys xs)
  unfolding distinct first_fresh
  distinct_seen [] s fresh h = cc
  distinct_seen (y ∷ xs) s fresh h = elim (Option-cases (first_fresh s.key xs)) [
    | inl new ↦
        let same : y.key ≡ s.key = ground arith in
        ap (λ l. y.key ∷ without dec y.key l) (distinct_new xs s new)
        ∙ ap (◌∷◌ y.key) (
            without-append_one dec y.key (distinct dec (sample_keys xs)) s.key
            ∙ ap (λ l. without dec y.key (distinct dec (sample_keys xs)) ++ l)
                (without_self dec y.key s.key same)
            ∙ append-nil _)
    | inr (found, seen) ↦ ap (λ l. y.key ∷ without dec y.key l) (distinct_seen xs s found seen)
  ]

  metrics_of_self : (k : K) (s : Sample K F) → k ≡ s.key → metrics_of k (s ∷ []) ≡ s.metric ∷ []
  unfolding metrics_of
  metrics_of_self k s h = ground arith

  metrics_of_other : (k : K) (s : Sample K F) → k ≢ s.key → metrics_of k (s ∷ []) ≡ []
  unfolding metrics_of
  metrics_of_other k s h = ground arith

  first_fresh_self : (k : K) (s : Sample K F) → k ≡ s.key → first_fresh k (s ∷ []) ≡ some s.fresh
  unfolding first_fresh
  first_fresh_self k s h = ground arith

  first_fresh_other : (k : K) (s : Sample K F) → k ≢ s.key → first_fresh k (s ∷ []) ≡ none
  unfolding first_fresh
  first_fresh_other k s h = ground arith

  pub family_of_other :
      (seen : List (Sample K F)) (s : Sample K F) (k : K)
      → k ≢ s.key
      → family_of (seen ++ s ∷ []) k ≡ family_of seen k
  unfolding family_of
  family_of_other seen s k h = elim (Option-cases (first_fresh k seen)) [
    | inl new ↦ rw (first_fresh_new k seen s new, first_fresh_other k s h, new) refl
    | inr (fresh, old) ↦
        rw
          (
            first_fresh_seen k seen s fresh old,
            old,
            metrics_of-append_one k seen s,
            metrics_of_other k s h,
            append-nil,
          )
          refl
  ]

  pub family_of_new :
      (seen : List (Sample K F)) (s : Sample K F) (k : K)
      → k ≡ s.key
      → family_of seen k ≡ none
      → family_of (seen ++ s ∷ []) k ≡ some (append_metric s.fresh s.metric)
  unfolding family_of
  family_of_new seen s k same h = elim (Option-cases (first_fresh k seen)) [
    | inl new ↦
        rw
          (
            first_fresh_new k seen s new,
            first_fresh_self k s same,
            metrics_of-append_one k seen s,
            metrics_of-none k seen new,
            metrics_of_self k s same,
          )
          refl
    | inr (fresh, old) ↦ cc
  ]

  pub family_of_old :
      (seen : List (Sample K F)) (s : Sample K F) (k : K) (fam : MetricFamily F)
      → k ≡ s.key
      → family_of seen k ≡ some fam
      → family_of (seen ++ s ∷ []) k ≡ some (append_metric fam s.metric)
  unfolding family_of
  family_of_old seen s k fam same h = elim (Option-cases (first_fresh k seen)) [
    | inl new ↦ cc
    | inr (fresh, old) ↦
        rw
          (
            first_fresh_seen k seen s fresh old,
            metrics_of-append_one k seen s,
            metrics_of_self k s same,
            ← some-injective _ _ (rw old at h),
            append_assoc,
          )
          refl
  ]

  pub first_fresh-none :
      (seen : List (Sample K F)) (k : K) → family_of seen k ≡ none → first_fresh k seen ≡ none
  unfolding family_of
  first_fresh-none seen k h = ground arith

  pub first_fresh-some :
      (seen : List (Sample K F)) (k : K) (fam : MetricFamily F)
      → family_of seen k ≡ some fam
      → (fresh : MetricFamily F) × (first_fresh k seen ≡ some fresh)
  unfolding family_of
  first_fresh-some seen k fam h = elim (Option-cases (first_fresh k seen)) [
    | inl new ↦ absurd (ground arith)
    | inr found ↦ found
  ]
