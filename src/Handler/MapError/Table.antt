-- ===== src/Handler/MapError/Table.antt =====
-- The table of HTTP answers that mapError implements, read from the answer back to the error.
use gcp_metrics_exporter.Common.{◌≤◌, ◌<◌, ◌≡◌, ◌≢◌, ◌⊎◌, ◌↔◌, Bool, true, false, [], ◌∷◌, arith}
use gcp_metrics_exporter.Errors.{
  Error, max_series_exceeded, invalid_aggregation, deadline_exceeded, canceled, is,
}
use gcp_metrics_exporter.Api.Monitoring.{
  Code, invalid_argument, not_found, permission_denied, unauthenticated, resource_exhausted,
}
use gcp_metrics_exporter.Api.Sdk.{Sdk}
use gcp_metrics_exporter.Handler.Http.{level_info, level_error}
use gcp_metrics_exporter.Handler.MapError.{Mapped, map_code, map_error}

-- The error is none of the four that mapError looks for first, by its four tests.
abbrev AreAllFalse : Bool → Bool → Bool → Bool → Type 0
AreAllFalse a b c d = ((a ≡ false) × (b ≡ false)) × ((c ≡ false) × (d ≡ false))

-- The gRPC codes of the table's last row: all that have no row of their own.
abbrev IsOther : Code → Type 0
IsOther code =
    ((code ≢ invalid_argument) × (code ≢ not_found))
    × ((code ≢ Code.deadline_exceeded) × (code ≢ resource_exhausted))

-- What an answer says of the error, by the four tests (the cap, the aggregation, the deadline, the
-- cancellation) and the gRPC code of the error.
pub record IsTable (a b c d : Bool) (code : Code) (m : Mapped) : Type 0 where
  pub too_large :
      (m.status ≡ 503) ↔ ((a ≡ true) ⊎ (AreAllFalse a b c d × (code ≡ resource_exhausted)))
  pub bad_request :
      (m.status ≡ 400)
      ↔ (((a ≡ false) × (b ≡ true)) ⊎ (AreAllFalse a b c d × (code ≡ invalid_argument)))
  pub too_late : (m.status ≡ 504) ↔ (
      (((a ≡ false) × (b ≡ false)) × (c ≡ true))
      ⊎ (AreAllFalse a b c d × (code ≡ Code.deadline_exceeded)))
  pub client_gone : (m.status ≡ 499) ↔ (((a ≡ false) × (b ≡ false)) × ((c ≡ false) × (d ≡ true)))
  pub missing : (m.status ≡ 404) ↔ (AreAllFalse a b c d × (code ≡ not_found))
  pub upstream : (m.status ≡ 502) ↔ (AreAllFalse a b c d × IsOther code)
  pub credentials :
      AreAllFalse a b c d
      → (code ≡ permission_denied) ⊎ (code ≡ unauthenticated)
      → m.msg ≡ "upstream authentication or authorization failed; check exporter credentials"
  pub failing :
      m.status ≡ 502
      → (code ≢ permission_denied) × (code ≢ unauthenticated)
      → m.msg ≡ "upstream error from cloud monitoring"
  pub retry :
      (m.headers ≡ ("Retry-After", "30") ∷ []) ↔ (AreAllFalse a b c d × (code ≡ resource_exhausted))
  pub bare : (m.headers ≡ []) ↔ ¬ (AreAllFalse a b c d × (code ≡ resource_exhausted))
  pub loud : (m.level ≡ level_error) ↔ (500 ≤ m.status)
  pub calm : (m.level ≡ level_info) ↔ (m.status < 500)

-- mapError answers every error, one that matches several of its tests included, by the first row of
-- this table that fits: 503 for the exceeded series cap; 400 for an invalid aggregation; 504 for an
-- exceeded deadline; 499 for a cancelled context; and otherwise by the gRPC code, 400 for
-- InvalidArgument, 404 for NotFound, 504 for DeadlineExceeded, 503 for ResourceExhausted and 502 for
-- every other code. Each of these statuses is given in those cases only. With 502 the message asks to check the credentials
-- for PermissionDenied and Unauthenticated, and names an upstream error for the other codes; the header
-- Retry-After: 30 is given exactly for ResourceExhausted (without one of the four errors), and no header
-- otherwise; and the log level is Error when the status is 500 or more and Info when it is less.
pub map_error-IsTable :
    (sdk : Sdk) (e : Error)
    → IsTable
        (is e max_series_exceeded)
        (is e invalid_aggregation)
        (is e deadline_exceeded)
        (is e canceled)
        (sdk.status_code e)
        (map_error sdk e)
unfolding map_error map_code
map_error-IsTable sdk e = record {
  too_large = ground arith;
  bad_request = ground arith;
  too_late = ground arith;
  client_gone = ground arith;
  missing = ground arith;
  upstream = ground arith;
  credentials = ground arith;
  failing = ground arith;
  retry = ground arith;
  bare = ground arith;
  loud = ground arith;
  calm = ground arith;
}
