-- ===== src/Handler/GmpRequest.antt =====
-- internal/handler/gmp_handler.go: parseGMPRequest.
pub mod Accepts
use Prim.Native.String.{◌++◌ as append}
use gcp_metrics_exporter.Common.{String, Bool, Option, none, some, if◌then◌else◌}
use gcp_metrics_exporter.Common.Int.{pos, ltb_ℤ}
use gcp_metrics_exporter.Strings.{is_empty}
use gcp_metrics_exporter.Api.Time.{Duration}
use gcp_metrics_exporter.Api.Sdk.{GoLib}
use gcp_metrics_exporter.Collector.Request.{default_text}
use gcp_metrics_exporter.Handler.Limits.{Limits}
use gcp_metrics_exporter.Handler.Request.{
  Query, Parsed, accepted, rejected, ◌>>=◌, bad_request, required,
}

pub record GmpRequestParams : Type 0 where
  pub project : String
  pub query : String
  pub time_offset : Duration
  pub impersonate_sa : String

abbrev pub invalid_offset : GoLib → String → String
invalid_offset lib v =
    append "invalid time_offset " (append (lib.quote v) ": must be a non-negative Go duration")

-- `if err != nil || d < 0`
abbrev pub non_negative_or : String → Option Duration → Parsed Duration
non_negative_or msg none = rejected msg bad_request
non_negative_or msg (some d) = if ltb_ℤ d (pos 0) then rejected msg bad_request else accepted d

unfoldable pub parse_time_offset : GoLib → Query → Parsed Duration
parse_time_offset lib q =
    if is_empty (q "time_offset")
    then accepted (pos 0)
    else non_negative_or (invalid_offset lib (q "time_offset"))
        (lib.parse_duration (q "time_offset"))

unfoldable pub parse_gmp_request : GoLib → Limits → Query → Parsed GmpRequestParams
parse_gmp_request lib limits q = do
  project ← required q "project"
  query ← required q "query"
  offset ← parse_time_offset lib q
  accepted (record {
    project = project;
    query = query;
    time_offset = offset;
    impersonate_sa = default_text limits.default_impersonate_sa (q "impersonate_sa");
  })
