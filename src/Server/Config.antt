-- ===== src/Server/Config.antt =====
-- cmd/server/main.go: config and loadConfig. The environment is the function os.Getenv.
pub mod Loads
pub mod Rules
use Prim.Native.String.{◌++◌ as append}
use gcp_metrics_exporter.Common.{String, Bool, ◌||◌, Option, none, some, ◌==◌, if◌then◌else◌}
use gcp_metrics_exporter.Common.Int.{ℤ, pos, is_nonpos, ltb_ℤ}
use gcp_metrics_exporter.Errors.{Error, text, Result, ok, err, ◌>>=◌}
use gcp_metrics_exporter.Strings.{is_empty}
use gcp_metrics_exporter.Strings.Atoi.{atoi}
use gcp_metrics_exporter.Api.Time.{Duration, seconds}
use gcp_metrics_exporter.Api.Sdk.{GoLib}

abbrev pub Env : Type 0
Env = String → String

pub record Config : Type 0 where
  pub port : ℤ
  pub credentials_file : String
  pub default_impersonate_sa : String
  pub log_level : String
  pub log_format : String
  pub scrape_timeout : Duration
  pub max_concurrent : ℤ
  pub max_series : ℤ
  pub shutdown_grace : Duration

abbrev pub default_port : ℤ
default_port = pos 8080

-- `if v := os.Getenv(name); v != "" { … }`, where v is the variable's text
abbrev pub setting : {A : Type 0} → A → (String → Result A) → String → Result A
setting fallback read v = if is_empty v then ok fallback else read v

module _ (lib : GoLib) where
  abbrev pub invalid : String → String → String → Error
  invalid name rule v = text (
      append "invalid "
        (append name (append " " (append (lib.quote v) (append ": must be " rule)))))

  unfoldable pub read_port : String → Result ℤ
  read_port v = elim (atoi v) [
    | none ↦ err (invalid "PORT" "an integer in 1..65535" v)
    | some n ↦
        if is_nonpos n || ltb_ℤ (pos 65535) n
        then err (invalid "PORT" "an integer in 1..65535" v)
        else ok n
  ]

  unfoldable pub read_log_level : String → Result String
  read_log_level v =
      let lower = lib.to_lower v in
      if lower == "debug" || lower == "info" || lower == "warn" || lower == "error"
      then ok lower
      else err (invalid "LOG_LEVEL" "one of debug, info, warn, error" v)

  unfoldable pub read_log_format : String → Result String
  read_log_format v =
      let lower = lib.to_lower v in
      if lower == "json" || lower == "text"
      then ok lower
      else err (invalid "LOG_FORMAT" "one of json, text" v)

  -- SCRAPE_TIMEOUT and SHUTDOWN_GRACE
  unfoldable pub read_duration : String → String → Result Duration
  read_duration name v = elim (lib.parse_duration v) [
    | none ↦ err (invalid name "a positive Go duration" v)
    | some d ↦ if is_nonpos d then err (invalid name "a positive Go duration" v) else ok d
  ]

  -- MAX_CONCURRENT_SCRAPES and MAX_SERIES_PER_REQUEST
  unfoldable pub read_count : String → String → Result ℤ
  read_count name v = elim (atoi v) [
    | none ↦ err (invalid name "a positive integer" v)
    | some n ↦ if is_nonpos n then err (invalid name "a positive integer" v) else ok n
  ]

  -- loadConfig
  unfoldable pub load_config : Env → Result Config
  load_config getenv = do
    port ← setting default_port read_port (getenv "PORT")
    level ← setting "info" read_log_level (getenv "LOG_LEVEL")
    format ← setting "json" read_log_format (getenv "LOG_FORMAT")
    timeout ← setting (seconds 30) (read_duration "SCRAPE_TIMEOUT") (getenv "SCRAPE_TIMEOUT")
    concurrent ←
        setting (pos 16) (read_count "MAX_CONCURRENT_SCRAPES") (getenv "MAX_CONCURRENT_SCRAPES")
    series ←
        setting (pos 10_000) (read_count "MAX_SERIES_PER_REQUEST") (getenv "MAX_SERIES_PER_REQUEST")
    grace ← setting (seconds 10) (read_duration "SHUTDOWN_GRACE") (getenv "SHUTDOWN_GRACE")
    ok (record {
      port = port;
      credentials_file = getenv "GOOGLE_APPLICATION_CREDENTIALS";
      default_impersonate_sa = getenv "DEFAULT_IMPERSONATE_SA";
      log_level = level;
      log_format = format;
      scrape_timeout = timeout;
      max_concurrent = concurrent;
      max_series = series;
      shutdown_grace = grace;
    })
