-- ===== src/Gmp/Collect/Labels.antt =====
-- internal/gmp/collector.go: the label names that normalizeLabels makes.
use mathlib.Core.List.{lookup}
use text.Mathlib.TextEquality.{eq_iff}
use gcp_metrics_exporter.Common.{
  ◌≡◌, ◌≢◌, refl, sym, String, Bool, true, false, List, [], ◌∷◌, All, IsDistinct, ◌==◌, inl, inr,
  Bool-cases, arith, String-discrete,
}
use gcp_metrics_exporter.Collector.Convert.Labels.{keys, label_names}
use gcp_metrics_exporter.Gmp.Collect.{has_label, renamed, normalize_from, normalize_labels}

-- A key that stays apart from the name that monitored_resource is given.
abbrev IsFree : Bool → String → Type 0
IsFree has_resource_type k = has_resource_type ≡ false → k ≢ "resource_type"

renamed_apart :
    (b : Bool) (k j : String) → IsFree b k → IsFree b j → k ≢ j → renamed b k ≢ renamed b j
renamed_apart true k j hk hj apart h = ground arith
renamed_apart false k j hk hj apart h =
    let free_k = hk refl in
    let free_j = hj refl in
    ground (arith, eq_iff k "monitored_resource", eq_iff j "monitored_resource")

normalize_from-apart :
    (b : Bool) (k : String) (m : List (String × String))
    → IsFree b k
    → All (IsFree b) (keys m)
    → All (λ j. k ≢ j) (keys m)
    → All (λ n. renamed b k ≢ n) (label_names (normalize_from b m))
unfolding normalize_from
normalize_from-apart b k [] hk hm apart = tt
normalize_from-apart b k (e ∷ m) hk hm apart = elim (Bool-cases (e.0 == "__name__")) [
  | inl y ↦ rw y (normalize_from-apart b k m hk (hm.1) (apart.1))
  | inr n ↦
      rw n (
        renamed_apart b k (e.0) hk (hm.0) (apart.0),
        normalize_from-apart b k m hk (hm.1) (apart.1),
      )
]

normalize_from-IsDistinct :
    (b : Bool) (m : List (String × String))
    → All (IsFree b) (keys m)
    → IsDistinct (keys m)
    → IsDistinct (label_names (normalize_from b m))
unfolding normalize_from
normalize_from-IsDistinct b [] hm d = tt
normalize_from-IsDistinct b (e ∷ m) hm d = elim (Bool-cases (e.0 == "__name__")) [
  | inl y ↦ rw y (normalize_from-IsDistinct b m (hm.1) (d.1))
  | inr n ↦ rw n (
    normalize_from-apart b (e.0) m (hm.0) (hm.1) (d.0),
    normalize_from-IsDistinct b m (hm.1) (d.1),
  )
]

unlabelled :
    (k : String) (m : List (String × String)) → has_label k m ≡ false → All (λ j. k ≢ j) (keys m)
unfolding lookup
unlabelled k [] h = tt
unlabelled k (e ∷ m) h = elim (String-discrete k (e.0)) [
  | yes same ↦ absurd (ground arith)
  | no other ↦ (other, unlabelled k m (ground arith))
]

renamed_unnamed : (b : Bool) (k : String) → (k == "__name__") ≡ false → renamed b k ≢ "__name__"
renamed_unnamed b k n h = ground (arith, eq_iff k "__name__", eq_iff "resource_type" "__name__")

normalize_from-unnamed :
    (b : Bool) (m : List (String × String))
    → All (λ n. n ≢ "__name__") (label_names (normalize_from b m))
unfolding normalize_from
normalize_from-unnamed b [] = tt
normalize_from-unnamed b (e ∷ m) = elim (Bool-cases (e.0 == "__name__")) [
  | inl y ↦ rw y (normalize_from-unnamed b m)
  | inr n ↦ rw n (renamed_unnamed b (e.0) n, normalize_from-unnamed b m)
]

All-IsFree :
    (b : Bool) (m : List (String × String))
    → (b ≡ false → All (λ j. "resource_type" ≢ j) (keys m))
    → All (IsFree b) (keys m)
All-IsFree b [] h = tt
All-IsFree b (e ∷ m) h = ((λ z same. (h z).0 (sym same)), All-IsFree b m λ z. (h z).1)

-- normalizeLabels gives distinct label names whenever the sample's labels are a map (no key twice):
-- renaming monitored_resource never clashes with a resource_type; and no label is named __name__.
pub normalize_labels-IsDistinct :
    (m : List (String × String))
    → IsDistinct (keys m)
    → IsDistinct (label_names (normalize_labels m))
      × All (λ n. n ≢ "__name__") (label_names (normalize_labels m))
unfolding normalize_labels
normalize_labels-IsDistinct m d =
    let b = has_label "resource_type" m in
    (
      normalize_from-IsDistinct b m (All-IsFree b m λ z. unlabelled "resource_type" m z) d,
      normalize_from-unnamed b m,
    )
