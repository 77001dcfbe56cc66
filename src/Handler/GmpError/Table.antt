-- ===== src/Handler/GmpError/Table.antt =====
-- The table of HTTP answers that mapGMPError implements, read from the answer back to the error
-- (internal/handler/gmp_handler.go).
use gcp_metrics_exporter.Common.{ℕ, ◌≤◌, ◌<◌, ◌≡◌, ◌⊎◌, ◌↔◌, true, false, some, [], ◌∷◌, arith}
use gcp_metrics_exporter.Errors.{Error, deadline_exceeded, canceled, is, as_api_error}
use gcp_metrics_exporter.Handler.Http.{level_info, level_error}
use gcp_metrics_exporter.Handler.MapError.{Mapped}
use gcp_metrics_exporter.Handler.GmpError.{map_api_status, map_gmp_error}

-- Neither sentinel that mapGMPError looks for first is in the error.
abbrev IsInTime : Error → Type 0
IsInTime e = (is e deadline_exceeded ≡ false) × (is e canceled ≡ false)

-- The first APIError of the error is of that status, and neither sentinel is in the error.
abbrev IsApi : Error → ℕ → Type 0
IsApi e status = IsInTime e × (as_api_error e ≡ some status)

-- What an answer says of the error.
pub record IsGmpTable (e : Error) (m : Mapped) : Type 0 where
  pub too_late : (m.status ≡ 504) ↔ (is e deadline_exceeded ≡ true)
  pub client_gone : (m.status ≡ 499) ↔ ((is e deadline_exceeded ≡ false) × (is e canceled ≡ true))
  pub bad_query : (m.status ≡ 400) ↔ IsApi e 400
  pub exhausted : (m.status ≡ 503) ↔ (IsApi e 503 ⊎ IsApi e 429)
  pub upstream : (m.status ≡ 502) ↔ (IsInTime e × (¬ IsApi e 400 × (¬ IsApi e 503 × ¬ IsApi e 429)))
  pub credentials :
      IsApi e 401 ⊎ IsApi e 403
      → m.msg ≡ "upstream authentication or authorization failed; check exporter credentials"
  pub failing : m.status ≡ 502 → ¬ IsApi e 401 × ¬ IsApi e 403 → m.msg ≡ "upstream error from GMP"
  pub retry : (m.headers ≡ ("Retry-After", "30") ∷ []) ↔ (IsApi e 503 ⊎ IsApi e 429)
  pub bare : (m.headers ≡ []) ↔ (¬ IsApi e 503 × ¬ IsApi e 429)
  pub loud : (m.level ≡ level_error) ↔ (500 ≤ m.status)
  pub calm : (m.level ≡ level_info) ↔ (m.status < 500)

-- mapGMPError answers every error by the first row of this table that fits: 504 for an exceeded
-- deadline; 499 for a cancelled context; and otherwise by the status of its first APIError, 400 for 400,
-- 503 for 503 and 429, and 502 for every other status and for an error without an APIError. Each of these
-- statuses is given in those cases only. With 502 the message asks to
-- check the credentials for the statuses 401 and 403, and names an upstream error for the others; the
-- header Retry-After: 30 is given exactly for 503 and 429 (without one of the two errors), and no header
-- otherwise; and the log level is Error when the answer's status is 500 or more and Info when it is less.
pub map_gmp_error-IsGmpTable : (e : Error) → IsGmpTable e (map_gmp_error e)
unfolding map_gmp_error map_api_status
map_gmp_error-IsGmpTable e = record {
  too_late = ground arith;
  client_gone = ground arith;
  bad_query = ground arith;
  exhausted = ground arith;
  upstream = ground arith;
  credentials = ground arith;
  failing = ground arith;
  retry = ground arith;
  bare = ground arith;
  loud = ground arith;
  calm = ground arith;
}
