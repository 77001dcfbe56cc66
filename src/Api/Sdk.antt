-- ===== src/Api/Sdk.antt =====
-- What the program calls and does not define: generated tables of the Cloud Monitoring SDK and the
-- gRPC status of an error, and routines of Go's library that stay abstract. An argument of all that
-- uses them.
use gcp_metrics_exporter.Common.{String, Option}
use gcp_metrics_exporter.Errors.{Error}
use gcp_metrics_exporter.Api.Monitoring.{Aligner, Reducer, Code}
use gcp_metrics_exporter.Api.Time.{Duration}

-- monitoringpb.Aggregation_Aligner_value and _Reducer_value, the enums' String methods, and
-- google.golang.org/grpc/status.Code with the String method of its result.
pub record Sdk : Type 0 where
  pub aligner_value : String → Option Aligner
  pub aligner_name : Aligner → String
  pub reducer_value : String → Option Reducer
  pub reducer_name : Reducer → String
  pub status_code : Error → Code
  pub code_name : Code → String

-- fmt's %q, Duration.String, time.ParseDuration, the hexadecimal SHA-256 of a text, strings.ToLower.
pub record GoLib : Type 0 where
  pub quote : String → String
  pub duration_string : Duration → String
  pub parse_duration : String → Option Duration
  pub sha256_hex : String → String
  pub to_lower : String → String
