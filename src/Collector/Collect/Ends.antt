-- ===== src/Collector/Collect/Ends.antt =====
-- How the loop of Collect ends, for any iterator: an end within the cap, a failure, or the cap.
use gcp_metrics_exporter.Common.{
  ℕ, zero, suc, ◌+◌, ◌≤◌, ◌≡◌, refl, ap, ◌∙◌, inl, inr, String, Bool, true, false, none, some, List,
  [], ◌∷◌, length, ltb, Bool-cases, Option-cases, ltb→lt, not-ltb→le, arith,
}
use gcp_metrics_exporter.Errors.{Result-cases, Error, iterator_done, is, Result, ok, err}
use gcp_metrics_exporter.Api.Float.{Float64}
use gcp_metrics_exporter.Api.Monitoring.{TimeSeries}
use gcp_metrics_exporter.Api.Prom.{MetricFamily}
use gcp_metrics_exporter.Families.{Families, Sample, no_families, add_samples, collected}
use gcp_metrics_exporter.Collector.Convert.{convert_series}
use gcp_metrics_exporter.Collector.Collect.{
  Iterator, FamilyKey, FamilyKey-discrete, too_many, sample_of, absorb, collect_loop, drain,
}

-- From the n-th call on, the iterator gives these series.
abbrev pub Yields : {F : Type 0} → Iterator F → ℕ → List (TimeSeries F) → Type 0
Yields next n [] = Unit
Yields next n (s ∷ ss) = (next n ≡ ok s) × Yields next (suc n) ss

module _ {F : Type 0} (fl : Float64 F) (metric_type help : String) (emit : Bool) where
  -- The samples of the series that convert, in order.
  unfoldable pub samples_of : List (TimeSeries F) → List (Sample FamilyKey F)
  samples_of [] = []
  samples_of (s ∷ ss) = elim (convert_series fl metric_type s) [
    | none ↦ samples_of ss
    | some c ↦ sample_of fl metric_type help emit s c ∷ samples_of ss
  ]

  add_samples-samples_of :
      (s : TimeSeries F) (ss : List (TimeSeries F)) (st : Families FamilyKey F)
      → add_samples FamilyKey-discrete (samples_of ss) (absorb fl metric_type help emit s st)
        ≡ add_samples FamilyKey-discrete (samples_of (s ∷ ss)) st
  unfolding samples_of absorb add_samples
  add_samples-samples_of s ss st = elim (Option-cases (convert_series fl metric_type s)) [
    | inl skipped ↦ rw (skipped, absorb, samples_of) refl
    | inr (c, converted) ↦ rw (converted, absorb, samples_of) refl
  ]

  module _ (max : ℕ) (next : Iterator F) where
    abbrev pub gathered : Families FamilyKey F → List (TimeSeries F) → List (MetricFamily F)
    gathered st ss =
        collected FamilyKey-discrete (add_samples FamilyKey-discrete (samples_of ss) st)

    -- How the loop ends when the calls from `count` on give the series `ss` and then something else:
    -- the iterator is done, it fails, or it has given one series more than the cap.
    pub data EndsFrom (count : ℕ) (st : Families FamilyKey F) (ss : List (TimeSeries F))
        (r : Result (List (MetricFamily F))) : Type 0 where
      at_end :
          (e : Error)
          → next (count + length ss) ≡ err e
          → is e iterator_done ≡ true
          → count + length ss ≤ max
          → r ≡ ok (gathered st ss)
          → EndsFrom count st ss r
      at_failure :
          (e : Error)
          → next (count + length ss) ≡ err e
          → is e iterator_done ≡ false
          → count + length ss ≤ max
          → r ≡ err e
          → EndsFrom count st ss r
      at_cap : count + length ss ≡ suc max → r ≡ err (too_many max) → EndsFrom count st ss r

    EndsFrom-cons :
        (count : ℕ) (st : Families FamilyKey F) (s : TimeSeries F) (ss : List (TimeSeries F))
        (r : Result (List (MetricFamily F)))
        → EndsFrom (suc count) (absorb fl metric_type help emit s st) ss r
        → EndsFrom count st (s ∷ ss) r
    EndsFrom-cons count st s ss r (at_end e h done low same) =
        at_end e (ap next (omega arith) ∙ h) done (omega arith)
          (same ∙ ap (λ x. ok (collected FamilyKey-discrete x)) (add_samples-samples_of s ss st))
    EndsFrom-cons count st s ss r (at_failure e h other low same) =
        at_failure e (ap next (omega arith) ∙ h) other (omega arith) same
    EndsFrom-cons count st s ss r (at_cap full same) = at_cap (omega arith) same

    collect_loop-EndsFrom :
        (fuel count : ℕ) (st : Families FamilyKey F)
        → count ≤ max
        → count + fuel ≡ suc max
        → (r : Result (List (MetricFamily F))) × (collect_loop fl metric_type help emit max next
              fuel count st
            ≡ some r)
          × (ss : List (TimeSeries F)) × Yields next count ss
          × EndsFrom count st ss r
    unfolding collect_loop add_samples samples_of
    collect_loop-EndsFrom zero count st low enough = absurd (omega arith)
    collect_loop-EndsFrom (suc fuel) count st low enough = elim (Result-cases (next count)) [
      | inr (e, failed) ↦ elim (Bool-cases (is e iterator_done)) [
        | inl done ↦ (
          ok (collected FamilyKey-discrete st),
          rw (failed, collect_loop, done) refl,
          [],
          tt,
          at_end e (ap next (omega arith) ∙ failed) done (omega arith) refl,
        )
        | inr other ↦ (
          err e,
          rw (failed, collect_loop, other) refl,
          [],
          tt,
          at_failure e (ap next (omega arith) ∙ failed) other (omega arith) refl,
        )
      ]
      | inl (s, given) ↦ elim (Bool-cases (ltb max (suc count))) [
        | inl over ↦ (
          err (too_many max),
          rw (given, collect_loop, over) refl,
          s ∷ [],
          (given, tt),
          at_cap (omega (arith, ltb→lt max (suc count) over)) refl,
        )
        | inr within ↦
            let (r, result, ss, yields, ends) =
              collect_loop-EndsFrom fuel (suc count) (absorb fl metric_type help emit s st)
                (not-ltb→le max (suc count) within) (omega arith) in
            (
              r,
              rw (given, collect_loop, within) result,
              s ∷ ss,
              (given, yields),
              EndsFrom-cons count st s ss r ends,
            )
      ]
    ]

    -- Whatever the iterator does, even one that never stops: Collect's loop ends after at most one
    -- call more than the cap, and its result is the families of all the series if the iterator says it
    -- is done within the cap, the iterator's own error if it fails within the cap, and
    -- ErrMaxSeriesExceeded if it gives one series more than the cap.
    pub drain-EndsFrom :
        (ss : List (TimeSeries F)) × Yields next 0 ss
        × EndsFrom 0 no_families ss (drain fl metric_type help emit max next)
    unfolding drain
    drain-EndsFrom =
        let (r, result, ss, yields, ends) =
          collect_loop-EndsFrom (suc max) 0 no_families (omega arith) (omega arith) in
        (ss, yields, rw result ends)
