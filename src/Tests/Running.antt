-- ===== src/Tests/Running.antt =====
-- cmd/server at a small environment.
use Prim.Native.String.{◌++◌ as append}
use gcp_metrics_exporter.Common.{
  ℕ, ◌<◌, suc, ◌≡◌, ◌↔◌, ◌⊎◌, refl, true, none, some, [], ◌∷◌, ◌==◌, if◌then◌else◌, arith, false,
}
use gcp_metrics_exporter.Common.Int.{pos}
use gcp_metrics_exporter.Errors.{Error, sentinel, deadline_exceeded, server_closed, is, ok, err}
use gcp_metrics_exporter.Strings.{format_int}
use gcp_metrics_exporter.Strings.Atoi.{atoi}
use gcp_metrics_exporter.Api.Time.{seconds}
use gcp_metrics_exporter.ClientCache.{Clients}
use gcp_metrics_exporter.Collector.Clients.Laws.{closed_world}
use gcp_metrics_exporter.Handler.Http.{level_error, LogLine}
use gcp_metrics_exporter.Server.Config.{Env, Config, load_config, read_port, read_log_level}
use gcp_metrics_exporter.Server.Config.Rules.{variables, Loading}
use gcp_metrics_exporter.Server.Config.Loads.{IsLoaded, load_config-Loading}
use gcp_metrics_exporter.Server.Healthcheck.{Probing, probe_url, healthcheck}
use gcp_metrics_exporter.Server.Shutdown.{signalled, Serving, on_signal}
use gcp_metrics_exporter.Server.Shutdown.Laws.{shut, on_signal-closes}
use gcp_metrics_exporter.Server.Main.{Served, invalid_configuration, run_main}
use gcp_metrics_exporter.Server.Main.Exits.{errors, run_main-errors}
use gcp_metrics_exporter.Server.Wiring.{listen_address}
use gcp_metrics_exporter.Server.Wiring.Accepted.{
  IsKept, load_config-IsKept, listen_address-probe_url,
}
use gcp_metrics_exporter.Server.Wiring.Probed.{IsAnswered, healthcheck-load_config}
use gcp_metrics_exporter.Tests.Dialing.{numbered}
use gcp_metrics_exporter.Tests.Samples.{toy_lib}

abbrev pub environment : Env
environment name = if name == "PORT" then "9090" else if name == "LOG_LEVEL" then "WARN" else ""

abbrev pub configured : Config
configured = record {
  port = pos 9090;
  credentials_file = "";
  default_impersonate_sa = "";
  log_level = "warn";
  log_format = "json";
  scrape_timeout = seconds 30;
  max_concurrent = pos 16;
  max_series = pos 10_000;
  shutdown_grace = seconds 10;
}

pub loaded : load_config toy_lib environment ≡ ok configured
unfolding load_config read_port atoi read_log_level
loaded = refl

load_config-Loading_example :
    Loading toy_lib environment variables
      (IsLoaded toy_lib environment)
      (load_config toy_lib environment)
load_config-Loading_example = load_config-Loading toy_lib environment

load_config-IsKept_example : IsKept configured
load_config-IsKept_example = load_config-IsKept toy_lib environment configured loaded

printed : environment "PORT" ≡ format_int (pos 9090)
unfolding format_int
printed = refl

listen_address-probe_url_example :
    (listen_address configured ≡ append ":" (environment "PORT"))
    × (probe_url environment ≡ append "http://127.0.0.1:" (append (environment "PORT") "/healthz"))
listen_address-probe_url_example =
    listen_address-probe_url toy_lib environment configured loaded (pos 9090) (omega arith)
      (omega arith) printed

-- The server answers its probes; the world counts them.
abbrev healthy : Probing ℕ
healthy = record { new_request = λ ctx url. ok tt; send = λ ctx url n. (ok 200, suc n) }

healthcheck-load_config_example :
    let url = append "http://127.0.0.1:" (append (format_int (pos 9090)) "/healthz") in
    (((healthcheck healthy environment 0).0 ≡ 0) × IsAnswered healthy url 0)
    ⊎ (((healthcheck healthy environment 0).0 ≡ 1) × ¬ IsAnswered healthy url 0)
healthcheck-load_config_example =
    healthcheck-load_config healthy toy_lib environment configured 0 loaded

-- Shutdown runs out of time, and the listener has been closed.
abbrev pub late : Serving ℕ ℕ
late = record {
  shutdown = λ ctx clients n. (some (sentinel deadline_exceeded), (clients, suc n));
  listener = λ n. (some (sentinel server_closed), suc n);
  message = λ e. "error";
}

abbrev two_clients : Clients ℕ
two_clients = ("a", 0) ∷ (("b", 1) ∷ [])

abbrev failed_scrape : LogLine
failed_scrape = record { level = level_error; msg = "metrics request failed"; attrs = [] }

-- A scrape fails while the process serves, and two clients are cached when the signal comes.
abbrev serves : Config → ℕ → Served ℕ ℕ
serves cfg n = record {
  wakeup = signalled;
  clients = two_clients;
  world = n;
  lines = failed_scrape ∷ [];
  turns = true ∷ (false ∷ []);
}

run_main-errors_example :
    let x = run_main toy_lib healthy numbered late serves false environment 7 in
    ((e : Error) × (load_config toy_lib environment ≡ err e)
      × (x.exit.code ≡ 1)
      × (x.log ≡ invalid_configuration (late.message e) ∷ []))
    ⊎ ((cfg : Config) × (load_config toy_lib environment ≡ ok cfg)
        × (((x.exit.code ≡ 0) × (errors x.log ≡ errors (serves cfg 7).lines))
            ⊎ ((x.exit.code ≡ 1) × (errors (serves cfg 7).lines < errors x.log))))
run_main-errors_example = run_main-errors toy_lib healthy numbered late serves environment 7

on_signal-closes_example :
    let x = on_signal numbered (λ s. s) late configured two_clients 7 in
    let closed = closed_world numbered two_clients ((shut late configured two_clients 7).1.1) in
    (x.clients ≡ [])
    × ((x.world ≡ (late.listener closed).1)
        × ((x.code ≡ 0) ↔ (
            ((shut late configured two_clients 7).0 ≡ none)
            × ((e : Error) → (late.listener closed).0 ≡ some e → is e server_closed ≡ true))))
on_signal-closes_example = on_signal-closes numbered (λ s. s) late configured two_clients 7
