-- ===== src/Server/Main.antt =====
-- cmd/server/main.go: main as a whole. What the process does besides main's own steps is an argument: the
-- requests that it serves up to the moment in which main wakes, and the lines that their handlers log.
pub mod Exits
use gcp_metrics_exporter.Common.{Bool, true, false, String, List, [], ◌∷◌, ◌++◌, if◌then◌else◌}
use gcp_metrics_exporter.Errors.{Error, ok, err}
use gcp_metrics_exporter.Api.Sdk.{GoLib}
use gcp_metrics_exporter.ClientCache.{Clients}
use gcp_metrics_exporter.Collector.Clients.{Dialing}
use gcp_metrics_exporter.Handler.Http.{level_error, string, LogLine}
use gcp_metrics_exporter.Server.Config.{Env, Config, load_config}
use gcp_metrics_exporter.Server.Healthcheck.{Probing, healthcheck}
use gcp_metrics_exporter.Server.Shutdown.{Wakeup, Serving, Exit, ends}

-- The line of the fallback logger.
abbrev pub invalid_configuration : String → LogLine
invalid_configuration message = record {
  level = level_error;
  msg = "invalid configuration";
  attrs = ("err", string message) ∷ [];
}

-- What serving comes to: what wakes main, the cached clients and the world then, the lines that the
-- handlers log from the start of the process to its end, and whose line comes next each time that one
-- is written, `true` for one of main's own.
pub record Served (W C : Type 0) : Type 0 where
  pub wakeup : Wakeup
  pub clients : Clients C
  pub world : W
  pub lines : List LogLine
  pub turns : List Bool

-- The lines of main's own and those of the handlers, each in their order, as they fall; they share one logger.
unfoldable pub merge : List Bool → List LogLine → List LogLine → List LogLine
merge [] own others = own ++ others
merge (true ∷ turns) [] others = others
merge (true ∷ turns) (l ∷ own) others = l ∷ merge turns own others
merge (false ∷ turns) own [] = own
merge (false ∷ turns) own (l ∷ others) = l ∷ merge turns own others

-- How main ends, and all the lines that the process logs.
pub record Outcome (W C : Type 0) : Type 0 where
  pub exit : Exit W C
  pub log : List LogLine

-- An end of main while no handler runs.
abbrev pub alone : {W C : Type 0} → Exit W C → Outcome W C
alone x = record { exit = x; log = x.logs }

module _ {W T C : Type 0} (lib : GoLib) (net : Probing W) (calls : Dialing W T C)
    (srv : Serving W C) (serves : Config → W → Served W C) where
  unfoldable pub run_healthcheck_mode : Env → W → Outcome W C
  run_healthcheck_mode getenv w = alone (record {
    code = (healthcheck net getenv w).0;
    logs = [];
    clients = [];
    world = (healthcheck net getenv w).1;
  })

  unfoldable pub run_server_mode : Env → W → Outcome W C
  unfolding merge
  run_server_mode getenv w = elim (load_config lib getenv) [
    | err e ↦ alone (record {
      code = 1;
      logs = invalid_configuration (srv.message e) ∷ [];
      clients = [];
      world = w;
    })
    | ok cfg ↦
        let served = serves cfg w in
        let x = ends calls lib.quote srv cfg served.wakeup served.clients served.world in
        record { exit = x; log = merge served.turns x.logs served.lines }
  ]

  -- main, for the value of the flag --healthcheck.
  unfoldable pub run_main : Bool → Env → W → Outcome W C
  unfolding run_healthcheck_mode run_server_mode
  run_main flag getenv w =
      let probe = run_healthcheck_mode getenv w in
      let serve = run_server_mode getenv w in if flag then probe else serve
