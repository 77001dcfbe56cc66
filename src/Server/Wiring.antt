-- ===== src/Server/Wiring.antt =====
-- cmd/server/main.go: what main makes of the configuration for the packages it wires together.
pub mod Accepted
pub mod Probed
use Prim.Native.String.{◌++◌ as append}
use gcp_metrics_exporter.Common.{String, []}
use gcp_metrics_exporter.Common.Int.{pos}
use gcp_metrics_exporter.Strings.{format_int}
use gcp_metrics_exporter.Auth.{AuthConfig}
use gcp_metrics_exporter.Handler.Limits.{Limits}
use gcp_metrics_exporter.Server.Config.{Config}

abbrev pub auth_config : Config → AuthConfig
auth_config cfg = record {
  credentials_file = cfg.credentials_file;
  impersonate_service_account = cfg.default_impersonate_sa;
  scopes = [];
  lifetime = pos 0;
}

abbrev pub limits_of : Config → Limits
limits_of cfg = record {
  scrape_timeout = cfg.scrape_timeout;
  max_concurrent = cfg.max_concurrent;
  max_series = cfg.max_series;
  default_impersonate_sa = cfg.default_impersonate_sa;
}

-- `http.Server.Addr`
abbrev pub listen_address : Config → String
listen_address cfg = append ":" (format_int cfg.port)
