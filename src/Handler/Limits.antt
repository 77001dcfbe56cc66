-- ===== src/Handler/Limits.antt =====
-- internal/handler/handler.go and gmp_handler.go: Limits and the defaults of the two constructors.
use gcp_metrics_exporter.Common.{String, if◌then◌else◌}
use gcp_metrics_exporter.Common.Int.{ℤ, pos, is_nonpos}
use gcp_metrics_exporter.Api.Time.{Duration, seconds}

pub record Limits : Type 0 where
  pub scrape_timeout : Duration
  pub max_concurrent : ℤ
  pub max_series : ℤ
  pub default_impersonate_sa : String

abbrev pub default_scrape_timeout : Duration
default_scrape_timeout = seconds 30

abbrev pub default_max_concurrent : ℤ
default_max_concurrent = pos 16

abbrev pub default_max_series : ℤ
default_max_series = pos 10_000

-- `if n <= 0 { n = fallback }`
abbrev pub default_int : ℤ → ℤ → ℤ
default_int fallback n = if is_nonpos n then fallback else n

-- The limits that NewGMPHandler keeps.
unfoldable pub resolve_gmp_limits : Limits → Limits
resolve_gmp_limits l = record l {
  scrape_timeout = default_int default_scrape_timeout l.scrape_timeout;
  max_concurrent = default_int default_max_concurrent l.max_concurrent;
}

-- The limits that NewMetricsHandler keeps.
unfoldable pub resolve_limits : Limits → Limits
resolve_limits l = record l {
  scrape_timeout = default_int default_scrape_timeout l.scrape_timeout;
  max_concurrent = default_int default_max_concurrent l.max_concurrent;
  max_series = default_int default_max_series l.max_series;
}
