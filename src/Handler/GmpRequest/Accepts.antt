-- ===== src/Handler/GmpRequest/Accepts.antt =====
-- What parseGMPRequest accepts (internal/handler/gmp_handler.go).
use gcp_metrics_exporter.Common.{
  ◌≡◌, ◌⊎◌, inl, inr, refl, sym, String, false, some, Bool-cases, Option-cases, arith,
}
use gcp_metrics_exporter.Common.Int.{pos, ◌≤ℤ◌, ltb_ℤ}
use gcp_metrics_exporter.Strings.{is_empty}
use gcp_metrics_exporter.Strings.Trim.{is_empty_iff, filled}
use gcp_metrics_exporter.Api.Time.{Duration}
use gcp_metrics_exporter.Api.Sdk.{GoLib}
use gcp_metrics_exporter.Handler.Limits.{Limits}
use gcp_metrics_exporter.Handler.Request.{Query}
use gcp_metrics_exporter.Handler.Request.Steps.{
  Verdict, accepts, refuses, step, finish, required-Verdict,
}
use gcp_metrics_exporter.Handler.GmpRequest.{
  GmpRequestParams, invalid_offset, parse_time_offset, parse_gmp_request,
}

-- An offset that is left out, or parses to a duration that is not negative.
pub IsOffset : GoLib → String → Type 0
IsOffset lib s = (s ≡ "") ⊎ ((d : Duration) × ((lib.parse_duration s ≡ some d) × (pos 0 ≤ℤ d)))

pub IsGmpWellFormed : GoLib → Query → Type 0
IsGmpWellFormed lib q = ¬ (q "project" ≡ "") × (¬ (q "query" ≡ "") × IsOffset lib (q "time_offset"))

-- The given texts, and an offset that is the parsed one or 0, and never negative.
pub record IsGmpUsable (lib : GoLib) (q : Query) (p : GmpRequestParams) : Type 0 where
  project : p.project ≡ q "project"
  query : p.query ≡ q "query"
  offset :
      ((q "time_offset" ≡ "") × (p.time_offset ≡ pos 0))
      ⊎ (lib.parse_duration (q "time_offset") ≡ some p.time_offset)
  not_negative : pos 0 ≤ℤ p.time_offset

unreadable :
    (lib : GoLib) (s : String)
    → is_empty s ≡ false
    → ((d : Duration) → lib.parse_duration s ≡ some d → ¬ (pos 0 ≤ℤ d))
    → ¬ IsOffset lib s
unfolding IsOffset
unreadable lib s n fail (inl e) = filled s n e
unreadable lib s n fail (inr (d, (e, h))) = fail d e h

not_negative_lem : (d : Duration) → ltb_ℤ d (pos 0) ≡ false → pos 0 ≤ℤ d
not_negative_lem d h = ground arith

parse_time_offset-Verdict :
    (lib : GoLib) (q : Query)
    → Verdict
        (IsOffset lib (q "time_offset"))
        (λ d.
          (((q "time_offset" ≡ "") × (d ≡ pos 0)) ⊎ (lib.parse_duration (q "time_offset") ≡ some d))
          × (pos 0 ≤ℤ d))
        (parse_time_offset lib q)
unfolding parse_time_offset IsOffset
parse_time_offset-Verdict lib q =
    let s = q "time_offset" in
    elim (Bool-cases (is_empty (q "time_offset"))) [
      | inl e ↦
          accepts (inl ((is_empty_iff _).0 e)) (pos 0) (rw e refl)
            (inl ((is_empty_iff _).0 e, refl), omega arith)
      | inr n ↦ elim (Option-cases (lib.parse_duration (q "time_offset"))) [
        | inl e ↦
            refuses (unreadable lib s n λ d e'. absurd (ground arith)) (invalid_offset lib s)
              (rw (n, e) refl)
        | inr (d, e) ↦ elim (Bool-cases (ltb_ℤ d (pos 0))) [
          | inl z ↦
              refuses
                (unreadable lib s n λ d' e' p.
                  let same : d' ≡ d = cc in
                  let p' : pos 0 ≤ℤ d = rw (sym same) p in absurd (ground arith))
                (invalid_offset lib s) (rw (n, e, z) refl)
          | inr z ↦
              accepts (inr (d, (e, not_negative_lem d z))) d (rw (n, e, z) refl)
                (inr e, not_negative_lem d z)
        ]
      ]
    ]

-- parseGMPRequest accepts a query exactly when project and query are given and time_offset is left
-- out or a Go duration that is not negative; every other query is refused with status 400. The accepted
-- parameters carry the given texts and an offset that is the parsed one, or 0 when it is left out.
pub parse_gmp_request-Verdict :
    (lib : GoLib) (limits : Limits) (q : Query)
    → Verdict (IsGmpWellFormed lib q) (IsGmpUsable lib q) (parse_gmp_request lib limits q)
unfolding parse_gmp_request IsGmpWellFormed
parse_gmp_request-Verdict lib limits q = step _ _ (required-Verdict q "project") λ project pp.
    step _ _ (required-Verdict q "query") λ query qq.
      finish _ _ (parse_time_offset-Verdict lib q)
        λ d dd. record { project = pp.0; query = qq.0; offset = dd.0; not_negative = dd.1 }
