-- ===== src/Handler/GmpError.antt =====
-- internal/handler/gmp_handler.go: mapGMPError.
pub mod Table
pub mod Upstream
use gcp_metrics_exporter.Common.{
  ℕ, Bool, Option, none, some, List, [], ◌∷◌, ◌||◌, nat_eq, if◌then◌else◌,
}
use gcp_metrics_exporter.Errors.{Error, deadline_exceeded, canceled, is, as_api_error}
use gcp_metrics_exporter.Handler.Http.{level_info, level_error}
use gcp_metrics_exporter.Handler.MapError.{Mapped, client_closed, mapped, auth_failed}

abbrev pub gmp_upstream_error : Mapped
gmp_upstream_error = mapped 502 "upstream error from GMP" "unknown" level_error

-- The switch on the status of an APIError.
unfoldable pub map_api_status : ℕ → Mapped
map_api_status status =
    if nat_eq status 400
    then mapped 400 "invalid PromQL query" "bad_query" level_info
    else if nat_eq status 401 || nat_eq status 403
    then auth_failed "auth_error"
    else if nat_eq status 503 || nat_eq status 429
    then record {
      status = 503;
      msg = "upstream quota exhausted";
      headers = ("Retry-After", "30") ∷ [];
      err_code = "quota_exhausted";
      level = level_error;
    }
    else gmp_upstream_error

unfoldable pub map_gmp_error : Error → Mapped
map_gmp_error e =
    if is e deadline_exceeded
    then mapped 504 "scrape exceeded deadline" "deadline_exceeded" level_error
    else if is e canceled
    then mapped client_closed "client cancelled the request" "client_canceled" level_info
    else elim (as_api_error e) [ some status ↦ map_api_status status | none ↦ gmp_upstream_error ]
