-- ===== src/Handler/Request/Steps.antt =====
-- The steps of parseRequest: what each accepts, and how they are put together
-- (internal/handler/handler.go).
use gcp_metrics_exporter.Common.{
  ◌≡◌, ◌⊎◌, inl, inr, refl, sym, String, Bool, false, none, some, Bool-cases, Option-cases, arith,
}
use gcp_metrics_exporter.Common.Int.{positive, not_positive, pos, ◌<ℤ◌, is_nonpos}
use gcp_metrics_exporter.Strings.{is_empty, parse_bool}
use gcp_metrics_exporter.Strings.Trim.{is_empty_iff, filled}
use gcp_metrics_exporter.Api.Time.{Duration}
use gcp_metrics_exporter.Api.Sdk.{GoLib}
use gcp_metrics_exporter.Handler.Request.{
  Query, Parsed, accepted, rejected, ◌>>=◌, required, missing, invalid_duration, invalid_switch,
  parse_positive, parse_emit_timestamps,
}

-- P is the condition on the query under which the step is to accept; a value it accepts has Q.
pub data Verdict {A : Type 0} (P : Type 0) (Q : A → Type 0) (r : Parsed A) : Type 0 where
  accepts : P → (a : A) → r ≡ accepted a → Q a → Verdict P Q r
  refuses : ¬ P → (msg : String) → r ≡ rejected msg 400 → Verdict P Q r

pub step :
    {A B : Type 0} {P P' : Type 0} {Q : A → Type 0} {Q' : B → Type 0} (r : Parsed A)
    (k : A → Parsed B)
    → Verdict P Q r
    → ((a : A) → Q a → Verdict P' Q' (k a))
    → Verdict (P × P') Q' (r >>= k)
step r k (refuses failed msg e) next = refuses (λ h. failed (h.0)) msg (rw e refl)
step r k (accepts p a e q) next = elim (next a q) [
  | accepts p' b e' q' ↦ accepts (p, p') b (rw e e') q'
  | refuses failed msg e' ↦ refuses (λ h. failed (h.1)) msg (rw e e')
]

pub finish :
    {A B : Type 0} {P : Type 0} {Q : A → Type 0} {Q' : B → Type 0} (r : Parsed A) (f : A → B)
    → Verdict P Q r
    → ((a : A) → Q a → Q' (f a))
    → Verdict P Q' (r >>= λ a. accepted (f a))
finish r f (refuses failed msg e) next = refuses failed msg (rw e refl)
finish r f (accepts p a e q) next = accepts p (f a) (rw e refl) (next a q)

-- A duration parameter that is left out, or parses to a positive duration.
pub IsDuration : GoLib → String → Type 0
IsDuration lib s = (s ≡ "") ⊎ ((d : Duration) × ((lib.parse_duration s ≡ some d) × (pos 0 <ℤ d)))

pub IsSwitch : String → Type 0
IsSwitch s = (s ≡ "") ⊎ ((b : Bool) × (parse_bool s ≡ some b))

-- The duration that a parameter stands for.
unfoldable pub IsMeant : GoLib → String → Duration → Duration → Type 0
IsMeant lib s fallback d =
    ((s ≡ "") × (d ≡ fallback)) ⊎ ((lib.parse_duration s ≡ some d) × (pos 0 <ℤ d))

unparsed :
    (lib : GoLib) (s : String)
    → is_empty s ≡ false
    → ((d : Duration) → lib.parse_duration s ≡ some d → ¬ (pos 0 <ℤ d))
    → ¬ IsDuration lib s
unfolding IsDuration
unparsed lib s n fail (inl e) = filled s n e
unparsed lib s n fail (inr (d, (e, h))) = fail d e h

unswitched : (s : String) → is_empty s ≡ false → parse_bool s ≡ none → ¬ IsSwitch s
unfolding IsSwitch
unswitched s n e (inl h) = filled s n h
unswitched s n e (inr (b, h)) = ground arith

pub required-Verdict :
    (q : Query) (name : String)
    → Verdict (¬ (q name ≡ "")) (λ v. (v ≡ q name) × ¬ (v ≡ "")) (required q name)
unfolding required
required-Verdict q name = elim (Bool-cases (is_empty (q name))) [
  | inl e ↦ refuses (λ given. given ((is_empty_iff _).0 e)) (missing name) (rw e refl)
  | inr n ↦ accepts (filled _ n) (q name) (rw n refl) (refl, filled _ n)
]

pub parse_positive-Verdict :
    (lib : GoLib) (q : Query) (name : String) (fallback : Duration)
    → Verdict
        (IsDuration lib (q name))
        (IsMeant lib (q name) fallback)
        (parse_positive lib q name fallback)
unfolding parse_positive IsDuration IsMeant
parse_positive-Verdict lib q name fallback = elim (Bool-cases (is_empty (q name))) [
  | inl e ↦
      accepts (inl ((is_empty_iff _).0 e)) fallback (rw e refl) (inl ((is_empty_iff _).0 e, refl))
  | inr n ↦ elim (Option-cases (lib.parse_duration (q name))) [
    | inl e ↦
        refuses (unparsed lib (q name) n λ d e'. absurd (ground arith))
          (invalid_duration lib name (q name)) (rw (n, e) refl)
    | inr (d, e) ↦ elim (Bool-cases (is_nonpos d)) [
      | inl z ↦
          refuses
            (unparsed lib (q name) n
              λ d' e' p. not_positive d z (let same : d' ≡ d = cc in rw (sym same) p))
            (invalid_duration lib name (q name)) (rw (n, e, z) refl)
      | inr z ↦ accepts (inr (d, (e, positive d z))) d (rw (n, e, z) refl) (inr (e, positive d z))
    ]
  ]
]

pub parse_emit_timestamps-Verdict :
    (lib : GoLib) (q : Query)
    → Verdict
        (IsSwitch (q "emit_timestamps"))
        (λ b.
          ((q "emit_timestamps" ≡ "") × (b ≡ false)) ⊎ (parse_bool (q "emit_timestamps") ≡ some b))
        (parse_emit_timestamps lib q)
unfolding parse_emit_timestamps IsSwitch
parse_emit_timestamps-Verdict lib q = elim (Bool-cases (is_empty (q "emit_timestamps"))) [
  | inl e ↦
      accepts (inl ((is_empty_iff _).0 e)) false (rw e refl) (inl ((is_empty_iff _).0 e, refl))
  | inr n ↦ elim (Option-cases (parse_bool (q "emit_timestamps"))) [
    | inl e ↦
        refuses (unswitched (q "emit_timestamps") n e) (invalid_switch lib (q "emit_timestamps"))
          (rw (n, e) refl)
    | inr (b, e) ↦ accepts (inr (b, e)) b (rw (n, e) refl) (inr e)
  ]
]
