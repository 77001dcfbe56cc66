-- ===== src/Families/Distinct.antt =====
-- A list without repetitions, each element where it first stands.
use gcp_metrics_exporter.Common.{
  ◌≡◌, refl, ◌≢◌, List, [], ◌∷◌, ◌++◌, ite, if_pos, if_neg, arith, All, IsDistinct,
}

module _ {K : Type 0} (dec : Discrete K) where
  unfoldable pub without : K → List K → List K
  without k [] = []
  without k (x ∷ xs) = ite (dec k x) (without k xs) (x ∷ without k xs)

  -- The list without repetitions, each element where it first stands.
  unfoldable pub distinct : List K → List K
  distinct [] = []
  distinct (x ∷ xs) = x ∷ without x (distinct xs)

  pub without-append_one :
      (k : K) (xs : List K) (x : K) → without k (xs ++ x ∷ []) ≡ without k xs ++ without k (x ∷ [])
  unfolding without
  without-append_one k [] x = refl
  without-append_one k (y ∷ xs) x = ground (arith, without-append_one k xs x)

  pub without_self : (k x : K) → k ≡ x → without k (x ∷ []) ≡ []
  unfolding without
  without_self k x h = ground arith

  pub without_other : (k x : K) → k ≢ x → without k (x ∷ []) ≡ x ∷ []
  unfolding without
  without_other k x h = ground arith

  All-without {κ} : (P : K → Type κ) (k : K) (xs : List K) → All P xs → All P (without k xs)
  unfolding without
  All-without P k [] h = tt
  All-without P k (x ∷ xs) h = elim (dec k x) [
    | yes same ↦ rw (if_pos _ same) (All-without P k xs h.1)
    | no other ↦ rw (if_neg _ other) (h.0, All-without P k xs h.1)
  ]

  -- What holds of every element holds of those that are kept.
  pub All-distinct {κ} : (P : K → Type κ) (xs : List K) → All P xs → All P (distinct xs)
  unfolding distinct
  All-distinct P [] h = tt
  All-distinct P (x ∷ xs) h = (h.0, All-without P x (distinct xs) (All-distinct P xs h.1))

  All-without_other : (k : K) (xs : List K) → All (λ y. k ≢ y) (without k xs)
  unfolding without
  All-without_other k [] = tt
  All-without_other k (x ∷ xs) = elim (dec k x) [
    | yes same ↦ rw (if_pos _ same) (All-without_other k xs)
    | no other ↦ rw (if_neg _ other) (other, All-without_other k xs)
  ]

  IsDistinct-without : (k : K) (xs : List K) → IsDistinct xs → IsDistinct (without k xs)
  unfolding without
  IsDistinct-without k [] h = tt
  IsDistinct-without k (x ∷ xs) h = elim (dec k x) [
    | yes same ↦ rw (if_pos _ same) (IsDistinct-without k xs h.1)
    | no other ↦
        rw (if_neg _ other) (All-without (λ y. x ≢ y) k xs h.0, IsDistinct-without k xs h.1)
  ]

  pub distinct-IsDistinct : (xs : List K) → IsDistinct (distinct xs)
  unfolding distinct
  distinct-IsDistinct [] = tt
  distinct-IsDistinct (x ∷ xs) = (
    All-without_other x (distinct xs),
    IsDistinct-without x (distinct xs) (distinct-IsDistinct xs),
  )
