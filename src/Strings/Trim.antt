-- ===== src/Strings/Trim.antt =====
-- strings.TrimSpace: when nothing is left.
use Prim.Native.Char.{code}
use Prim.Native.String.{[], ◌∷◌}
use gcp_metrics_exporter.Common.{◌≡◌, refl, ◌↔◌, String, true, false, Bool-cases, inl, inr, arith}
use gcp_metrics_exporter.Strings.{is_space, is_empty, trim_left, trim_right, trim_space}

-- Every character is white space.
abbrev pub IsBlank : String → Type 0
IsBlank [] = Unit
IsBlank (c ∷ s) = (is_space (code c) ≡ true) × IsBlank s

trim_right-IsBlank : (s : String) → IsBlank s → trim_right s ≡ []
unfolding trim_right
trim_right-IsBlank [] h = refl
trim_right-IsBlank (c ∷ s) h = rw (trim_right-IsBlank s h.1, h.0) refl

trim_left-IsBlank : (s : String) → IsBlank s → trim_left s ≡ []
unfolding trim_left
trim_left-IsBlank [] h = refl
trim_left-IsBlank (c ∷ s) h = rw (h.0) (trim_left-IsBlank s h.1)

IsBlank-trim_right : (s : String) → is_empty (trim_right s) ≡ true → IsBlank s
unfolding trim_right
IsBlank-trim_right [] h = tt
IsBlank-trim_right (c ∷ s) h = elim (Bool-cases (is_empty (trim_right s))) [
  | inl e ↦ elim (Bool-cases (is_space (code c))) [
    | inl sp ↦ (sp, IsBlank-trim_right s e)
    | inr p ↦ absurd (ground arith)
  ]
  | inr p ↦ absurd (ground arith)
]

IsBlank-trim_left : (s : String) → IsBlank (trim_left s) → IsBlank s
unfolding trim_left
IsBlank-trim_left [] h = tt
IsBlank-trim_left (c ∷ s) h = elim (Bool-cases (is_space (code c))) [
  | inl sp ↦ (sp, IsBlank-trim_left s (rw sp at h))
  | inr p ↦ rw p at h
]

is_empty-eq : (s : String) → s ≡ [] → is_empty s ≡ true
is_empty-eq s h = rw h refl

-- Trimming leaves nothing exactly when every character is white space.
pub trim_space-IsBlank : (s : String) → (is_empty (trim_space s) ≡ true) ↔ IsBlank s
unfolding trim_space
trim_space-IsBlank s = (
  λ h. IsBlank-trim_left s (IsBlank-trim_right (trim_left s) h),
  λ h. is_empty-eq _ (rw (trim_left-IsBlank s h) refl),
)

pub is_empty_iff : (s : String) → (is_empty s ≡ true) ↔ (s ≡ [])
is_empty_iff [] = (λ _. refl, λ _. refl)
is_empty_iff (c ∷ s) = (λ h. cc, λ h. is_empty-eq _ h)

pub filled : (s : String) → is_empty s ≡ false → ¬ (s ≡ [])
filled s n h = let e : is_empty s ≡ true = (is_empty_iff s).1 h in absurd (ground arith)
