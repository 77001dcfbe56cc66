-- ===== src/Handler/MapError.antt =====
-- internal/handler/handler.go: mapError.
pub mod Table
use gcp_metrics_exporter.Common.{ℕ, String, Bool, List, [], ◌∷◌, if◌then◌else◌}
use gcp_metrics_exporter.Errors.{
  Error, max_series_exceeded, invalid_aggregation, deadline_exceeded, canceled, is,
}
use gcp_metrics_exporter.Api.Monitoring.{
  Code, ok_code, unknown, invalid_argument, not_found, permission_denied, unauthenticated,
  resource_exhausted, unimplemented, other_code,
}
use gcp_metrics_exporter.Api.Sdk.{Sdk}
use gcp_metrics_exporter.Handler.Http.{Level, level_debug, level_info, level_warn, level_error}

-- The five results of mapError.
pub record Mapped : Type 0 where
  pub status : ℕ
  pub msg : String
  pub headers : List (String × String)
  pub err_code : String
  pub level : Level

abbrev pub client_closed : ℕ
client_closed = 499

abbrev pub mapped : ℕ → String → String → Level → Mapped
mapped status msg err_code level = record {
  status = status;
  msg = msg;
  headers = [];
  err_code = err_code;
  level = level;
}

abbrev pub upstream_error : String → Mapped
upstream_error err_code = mapped 502 "upstream error from cloud monitoring" err_code level_error

abbrev pub auth_failed : String → Mapped
auth_failed err_code =
    mapped 502 "upstream authentication or authorization failed; check exporter credentials"
      err_code level_error

-- The switch on a gRPC code; OK and Unknown fall through to the last return.
unfoldable pub map_code : Sdk → Code → Mapped
map_code sdk ok_code = upstream_error "unknown"
map_code sdk unknown = upstream_error "unknown"
map_code sdk invalid_argument =
    mapped 400 "invalid argument: check filter, aligner, reducer, or metric_type"
      (sdk.code_name invalid_argument) level_info
map_code sdk not_found =
    mapped 404 "project or metric type not found" (sdk.code_name not_found) level_info
map_code sdk permission_denied = auth_failed (sdk.code_name permission_denied)
map_code sdk unauthenticated = auth_failed (sdk.code_name unauthenticated)
map_code sdk Code.deadline_exceeded =
    mapped 504 "upstream deadline exceeded" (sdk.code_name Code.deadline_exceeded) level_error
map_code sdk resource_exhausted = record {
  status = 503;
  msg = "upstream quota exhausted";
  headers = ("Retry-After", "30") ∷ [];
  err_code = sdk.code_name resource_exhausted;
  level = level_error;
}
map_code sdk unimplemented = upstream_error (sdk.code_name unimplemented)
map_code sdk (other_code n) = upstream_error (sdk.code_name (other_code n))

unfoldable pub map_error : Sdk → Error → Mapped
map_error sdk e =
    if is e max_series_exceeded
    then mapped 503 "max series exceeded; narrow the filter or set a reducer" "max_series_exceeded"
        level_error
    else if is e invalid_aggregation
    then mapped 400 "invalid aligner or reducer" "invalid_aggregation" level_info
    else if is e deadline_exceeded
    then mapped 504 "scrape exceeded deadline" "deadline_exceeded" level_error
    else if is e canceled
    then mapped client_closed "client cancelled the request" "client_canceled" level_info
    else map_code sdk (sdk.status_code e)
