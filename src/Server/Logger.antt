-- ===== src/Server/Logger.antt =====
-- cmd/server/main.go: buildLogger. A logger of log/slog is its handler's format and least level.
use gcp_metrics_exporter.Common.{String, ◌==◌, if◌then◌else◌}
use gcp_metrics_exporter.Handler.Http.{Level, level_debug, level_info, level_warn, level_error}

pub data Format : Type 0 where
  text_handler : Format
  json_handler : Format

pub record Logger : Type 0 where
  pub format : Format
  pub level : Level

unfoldable pub build_logger : String → String → Logger
build_logger log_level log_format = record {
  format = if log_format == "text" then text_handler else json_handler;
  level =
      if log_level == "debug"
      then level_debug
      else if log_level == "warn"
      then level_warn
      else if log_level == "error"
      then level_error
      else level_info;
}
