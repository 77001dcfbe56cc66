-- ===== src/Server/Main/Exits.antt =====
-- What the exit code of the server says of what it logged (cmd/server/main.go).
use gcp_metrics_exporter.Common.{
  ℕ, ◌+◌, ◌<◌, ◌≡◌, ◌⊎◌, inl, inr, refl, Bool, true, false, List, [], ◌∷◌, ◌++◌, suc, if◌then◌else◌,
  arith,
}
use gcp_metrics_exporter.Errors.{Error, Result-cases, ok, err}
use gcp_metrics_exporter.Api.Sdk.{GoLib}
use gcp_metrics_exporter.Collector.Clients.{Dialing}
use gcp_metrics_exporter.Handler.Http.{Level, level_error, LogLine}
use gcp_metrics_exporter.Server.Config.{Env, Config, load_config}
use gcp_metrics_exporter.Server.Healthcheck.{Probing}
use gcp_metrics_exporter.Server.Shutdown.{Serving, Exit, ends}
use gcp_metrics_exporter.Server.Shutdown.Laws.{IsQuiet, ends-IsQuiet}
use gcp_metrics_exporter.Server.Main.{
  Served, merge, invalid_configuration, run_server_mode, run_main,
}

abbrev pub is_error : Level → Bool
is_error level_error = true
is_error _ = false

-- How many lines have the level Error.
unfoldable pub errors : List LogLine → ℕ
errors [] = 0
errors (l ∷ ls) = let rest = errors ls in if is_error l.level then suc rest else rest

errors-append : (xs ys : List LogLine) → errors (xs ++ ys) ≡ errors xs + errors ys
unfolding errors
errors-append [] ys = omega arith
errors-append (l ∷ xs) ys = let ih = errors-append xs ys in ground arith

errors-merge :
    (turns : List Bool) (own others : List LogLine)
    → errors (merge turns own others) ≡ errors own + errors others
unfolding errors merge
errors-merge [] own others = errors-append own others
errors-merge (true ∷ turns) [] others = omega arith
errors-merge (true ∷ turns) (l ∷ own) others =
    let ih = errors-merge turns own others in ground arith
errors-merge (false ∷ turns) own [] = omega arith
errors-merge (false ∷ turns) own (l ∷ others) =
    let ih = errors-merge turns own others in ground arith

errors-IsQuiet : (ls : List LogLine) → IsQuiet ls → errors ls ≡ 0
unfolding errors
errors-IsQuiet [] h = refl
errors-IsQuiet (l ∷ ls) (fine, rest) = let ih = errors-IsQuiet ls rest in ground arith

IsQuiet-errors : (ls : List LogLine) → errors ls ≡ 0 → IsQuiet ls
unfolding errors
IsQuiet-errors [] h = tt
IsQuiet-errors (l ∷ ls) h = ((λ same. absurd (ground arith)), IsQuiet-errors ls (ground arith))

module _ {W T C : Type 0} (lib : GoLib) (net : Probing W) (calls : Dialing W T C)
    (srv : Serving W C) (serves : Config → W → Served W C) where
  -- Without --healthcheck, whatever wakes the process and whatever its handlers log, among main's own
  -- lines in any order: if loadConfig refuses the configuration, the process exits with 1 and logs one
  -- line, at level Error, with loadConfig's message. If it accepts, the process exits with 0 or with 1;
  -- with 0 the lines at level Error that it logged are as many as the handlers logged, so that main itself
  -- logged none, and with 1 they are more.
  pub run_main-errors :
      (getenv : Env) (w : W)
      → let x = run_main lib net calls srv serves false getenv w in
        ((e : Error) × (load_config lib getenv ≡ err e)
          × (x.exit.code ≡ 1)
          × (x.log ≡ invalid_configuration (srv.message e) ∷ []))
        ⊎ ((cfg : Config) × (load_config lib getenv ≡ ok cfg)
            × (((x.exit.code ≡ 0) × (errors x.log ≡ errors (serves cfg w).lines))
                ⊎ ((x.exit.code ≡ 1) × (errors (serves cfg w).lines < errors x.log))))
  unfolding run_main
  run_main-errors getenv w = elim (Result-cases (load_config lib getenv)) [
    | inr (e, refused) ↦ rw (refused, run_server_mode) (inl (e, refl, refl, refl))
    | inl (cfg, loaded) ↦
        let served = serves cfg w in
        let x : Exit W C = ends calls lib.quote srv cfg served.wakeup served.clients served.world in
        let sum = errors-merge served.turns x.logs served.lines in
        let quiet = errors-IsQuiet x.logs in
        let loud = IsQuiet-errors x.logs in
        elim (ends-IsQuiet calls lib.quote srv cfg served.clients served.world served.wakeup) [
          | inl (zero_code, calm) ↦
              let none_own = quiet calm in
              rw (loaded, run_server_mode) (inr (cfg, refl, inl (zero_code, omega arith)))
          | inr (one_code, not_calm) ↦
              let some_own : ¬ (errors x.logs ≡ 0) = λ h. not_calm (loud h) in
              rw (loaded, run_server_mode) (inr (cfg, refl, inr (one_code, omega arith)))
        ]
  ]
