-- ===== src/Server/Healthcheck.antt =====
-- cmd/server/main.go: the probe of --healthcheck, and its exit code.
use Prim.Native.String.{◌++◌ as append}
use gcp_metrics_exporter.Common.{ℕ, String, not, ◌&&◌, none, some, nat_eq, if◌then◌else◌}
use gcp_metrics_exporter.Common.Int.{ℤ, pos, ltb_ℤ}
use gcp_metrics_exporter.Errors.{Result, ok, err}
use gcp_metrics_exporter.Strings.{is_empty, format_int}
use gcp_metrics_exporter.Strings.Atoi.{atoi}
use gcp_metrics_exporter.Api.Time.{Duration, seconds}
use gcp_metrics_exporter.Api.Context.{Context, background, with_timeout}
use gcp_metrics_exporter.Server.Config.{Env, default_port}

abbrev pub healthcheck_timeout : Duration
healthcheck_timeout = seconds 2

-- A PORT that loadConfig would refuse is ignored.
unfoldable pub probe_port : Env → ℤ
probe_port getenv = if is_empty (getenv "PORT") then default_port else elim (atoi (getenv "PORT")) [
  | none ↦ default_port
  | some n ↦ if ltb_ℤ (pos 0) n && not (ltb_ℤ (pos 65535) n) then n else default_port
]

abbrev pub probe_url : Env → String
probe_url getenv = append "http://127.0.0.1:" (append (format_int (probe_port getenv)) "/healthz")

-- http.NewRequestWithContext and Client.Do: the status of the response.
pub record Probing (W : Type 0) : Type 0 where
  pub new_request : Context → String → Result (Unit {0})
  pub send : Context → String → W → Result ℕ × W

module _ {W : Type 0} (net : Probing W) where
  -- The exit code, and the world after the probe.
  unfoldable pub run_healthcheck : String → W → ℕ × W
  run_healthcheck url w =
      let ctx = with_timeout background healthcheck_timeout in
      elim (net.new_request ctx url) [
        | err _ ↦ (1, w)
        | ok _ ↦ elim ((net.send ctx url w).0) [
          | err _ ↦ (1, (net.send ctx url w).1)
          | ok status ↦ (if nat_eq status 200 then 0 else 1, (net.send ctx url w).1)
        ]
      ]

  -- What `--healthcheck` does.
  unfoldable pub healthcheck : Env → W → ℕ × W
  unfolding run_healthcheck probe_port
  healthcheck getenv w = run_healthcheck (probe_url getenv) w
