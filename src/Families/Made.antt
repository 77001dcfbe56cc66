-- ===== src/Families/Made.antt =====
-- Every family that is kept was made for a sample.
use gcp_metrics_exporter.Common.{◌≡◌, refl, ◌∙◌, ◌≢◌, some, List, [], ◌∷◌, arith, All}
use gcp_metrics_exporter.Api.Prom.{MetricFamily}
use gcp_metrics_exporter.Families.{Sample}
use gcp_metrics_exporter.Families.Distinct.{distinct, All-distinct}
use gcp_metrics_exporter.Families.FamilyOf.{sample_keys, first_fresh}

module _ {K F : Type 0} (dec : Discrete K) where
  first_fresh-cons_self :
      (k : K) (s : Sample K F) (xs : List (Sample K F))
      → k ≡ s.key
      → first_fresh dec k (s ∷ xs) ≡ some s.fresh
  unfolding first_fresh
  first_fresh-cons_self k s xs h = ground arith

  first_fresh-cons_other :
      (k : K) (s : Sample K F) (xs : List (Sample K F))
      → k ≢ s.key
      → first_fresh dec k (s ∷ xs) ≡ first_fresh dec k xs
  unfolding first_fresh
  first_fresh-cons_other k s xs h = ground arith

  -- Every family that is kept stems from a sample: what holds of each sample's key and family holds of
  -- each kept key and the family that was made for it.
  module _ {κ} (P : K → MetricFamily F → Type κ) where
    abbrev pub Made : List (Sample K F) → K → Type κ
    Made xs k = (fresh : MetricFamily F) × (first_fresh dec k xs ≡ some fresh) × P k fresh

    Made-cons :
        (s : Sample K F) (xs : List (Sample K F)) (k : K)
        → P s.key s.fresh
        → Made xs k
        → Made (s ∷ xs) k
    Made-cons s xs k h (fresh, found, holds) = elim (dec k s.key) [
      | yes same ↦ (s.fresh, first_fresh-cons_self k s xs same, rw same h)
      | no other ↦ (fresh, first_fresh-cons_other k s xs other ∙ found, holds)
    ]

    All-Made-cons :
        (s : Sample K F) (xs : List (Sample K F)) (ks : List K)
        → P s.key s.fresh
        → All (Made xs) ks
        → All (Made (s ∷ xs)) ks
    All-Made-cons s xs [] h a = tt
    All-Made-cons s xs (k ∷ ks) h a = (Made-cons s xs k h a.0, All-Made-cons s xs ks h a.1)

    Made-keys :
        (xs : List (Sample K F)) → All (λ s. P s.key s.fresh) xs → All (Made xs) (sample_keys xs)
    Made-keys [] h = tt
    Made-keys (s ∷ xs) h = (
      (s.fresh, first_fresh-cons_self s.key s xs refl, h.0),
      All-Made-cons s xs (sample_keys xs) h.0 (Made-keys xs h.1),
    )

    pub Made-distinct :
        (xs : List (Sample K F))
        → All (λ s. P s.key s.fresh) xs
        → All (Made xs) (distinct dec (sample_keys xs))
    Made-distinct xs h = All-distinct dec (Made xs) (sample_keys xs) (Made-keys xs h)
