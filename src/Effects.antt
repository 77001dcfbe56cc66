-- ===== src/Effects.antt =====
-- Go functions that may fail and that read and change a world W: `(A, error)` with the world passed
-- along (used for internal/auth, the client caches and internal/gmp).
use gcp_metrics_exporter.Common.{◌≡◌, refl, ◌∙◌, ap, inl, inr, String, arith}
use gcp_metrics_exporter.Errors.{Error, Result, Result-cases, ok, err, wrap}

abbrev pub Io : Type 0 → Type 0 → Type 0
Io W A = W → Result A × W

-- `if err != nil { return nil, err }`
infixl 5 ◌>>=◌
abbrev pub ◌>>=◌ : {W A B : Type 0} → Io W A → (A → Io W B) → Io W B
◌>>=◌ m f w = elim ((m w).0) [ ok a ↦ f a ((m w).1) | err e ↦ (err e, (m w).1) ]

abbrev pub pure : {W A : Type 0} → A → Io W A
pure a w = (ok a, w)

-- `if err != nil { return nil, fmt.Errorf("before%w", err) }`
abbrev pub failing_as : {W A : Type 0} → String → Io W A → Io W A
failing_as before m w = elim ((m w).0) [
  | ok a ↦ (ok a, (m w).1)
  | err e ↦ (err (wrap before e ""), (m w).1)
]

module _ {W A B : Type 0} (m : Io W A) (f : A → Io W B) (w w' : W) where
  then_do : Result A × W → Result B × W
  then_do r = elim (r.0) [ ok a ↦ f a (r.1) | err e ↦ (err e, r.1) ]

  pub >>=-ok : (a : A) → m w ≡ (ok a, w') → (m >>= f) w ≡ f a w'
  unfolding then_do
  >>=-ok a h = ap then_do h

  pub >>=-err : (e : Error) → m w ≡ (err e, w') → (m >>= f) w ≡ (err e, w')
  unfolding then_do
  >>=-err e h = ap then_do h

module _ {W A : Type 0} (before : String) (m : Io W A) (w w' : W) where
  then_wrap : Result A × W → Result A × W
  then_wrap r = elim (r.0) [ ok a ↦ (ok a, r.1) | err e ↦ (err (wrap before e ""), r.1) ]

  pub failing_as-ok : (a : A) → m w ≡ (ok a, w') → failing_as before m w ≡ (ok a, w')
  unfolding then_wrap
  failing_as-ok a h = ap then_wrap h

  pub failing_as-err :
      (e : Error) → m w ≡ (err e, w') → failing_as before m w ≡ (err (wrap before e ""), w')
  unfolding then_wrap
  failing_as-err e h = ap then_wrap h

-- A chain that succeeds has two steps that succeed.
pub bind_ok_inv :
    {W A B : Type 0} (m : Io W A) (f : A → Io W B) (w : W) (b : B)
    → ((m >>= f) w).0 ≡ ok b
    → (a : A) × (((m w).0 ≡ ok a) × ((f a ((m w).1)).0 ≡ ok b))
bind_ok_inv m f w b h = elim (Result-cases ((m w).0)) [
  | inl (a, e) ↦ (a, (e, rw (e, ◌>>=◌) at h))
  | inr (x, e) ↦ let bad : err x ≡ ok b = rw (e, ◌>>=◌) at h in absurd (ground arith)
]

pub failing_as_ok_inv :
    {W A : Type 0} (before : String) (m : Io W A) (w : W) (a : A)
    → (failing_as before m w).0 ≡ ok a
    → (m w).0 ≡ ok a
failing_as_ok_inv before m w a h = elim (Result-cases ((m w).0)) [
  | inl (b, e) ↦ let same : ok b ≡ ok a = rw (e, failing_as) at h in e ∙ same
  | inr (x, e) ↦
      let bad : err (wrap before x "") ≡ ok a = rw (e, failing_as) at h in absurd (ground arith)
]

pub failing_as_world :
    {W A : Type 0} (before : String) (m : Io W A) (w : W) → (failing_as before m w).1 ≡ (m w).1
failing_as_world before m w = elim (Result-cases ((m w).0)) [
  | inl (a, e) ↦ rw (e, failing_as) refl
  | inr (x, e) ↦ rw (e, failing_as) refl
]

-- Whatever happens, the world keeps the property P.
pub record Keeps {W A : Type 0} (P : W → Type 0) (m : Io W A) : Type 0 where
  pub at : (w : W) → P w → P ((m w).1)

module _ {W : Type 0} (P : W → Type 0) where
  pub >>=-Keeps :
      {A B : Type 0} (m : Io W A) (f : A → Io W B)
      → Keeps P m
      → ((a : A) → Keeps P (f a))
      → Keeps P (m >>= f)
  >>=-Keeps m f hm hf = record {
    at = λ w p. elim (Result-cases ((m w).0)) [
      | inl (a, e) ↦ rw (e, ◌>>=◌) ((hf a).at ((m w).1) (hm.at w p))
      | inr (x, e) ↦ rw (e, ◌>>=◌) (hm.at w p)
    ];
  }

  pub failing_as-Keeps :
      {A : Type 0} (before : String) (m : Io W A) → Keeps P m → Keeps P (failing_as before m)
  failing_as-Keeps before m hm = record {
    at = λ w p. elim (Result-cases ((m w).0)) [
      | inl (a, e) ↦ rw (e, failing_as) (hm.at w p)
      | inr (x, e) ↦ rw (e, failing_as) (hm.at w p)
    ];
  }
