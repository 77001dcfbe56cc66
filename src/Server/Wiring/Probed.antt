-- ===== src/Server/Wiring/Probed.antt =====
-- What the exit code of --healthcheck says of the server (cmd/server/main.go).
use Prim.Native.String.{◌++◌ as append}
use gcp_metrics_exporter.Common.{◌≡◌, ◌⊎◌, inl, inr, refl, String, nat_eq, Bool-cases, arith}
use gcp_metrics_exporter.Errors.{Result-cases, ok}
use gcp_metrics_exporter.Strings.{format_int}
use gcp_metrics_exporter.Api.Context.{Context, background, with_timeout}
use gcp_metrics_exporter.Api.Sdk.{GoLib}
use gcp_metrics_exporter.Server.Config.{Env, Config, load_config}
use gcp_metrics_exporter.Server.Healthcheck.{
  Probing, healthcheck_timeout, probe_url, run_healthcheck, healthcheck,
}
use gcp_metrics_exporter.Server.Wiring.Accepted.{probe_port-load_config}

module _ {W : Type 0} (net : Probing W) where
  -- A GET of the URL, within two seconds, is answered with status 200.
  pub IsAnswered : String → W → Type 0
  IsAnswered url w =
      (net.new_request (with_timeout background healthcheck_timeout) url ≡ ok tt)
      × ((net.send (with_timeout background healthcheck_timeout) url w).0 ≡ ok 200)

  run_healthcheck_lem :
      (url : String) (w : W)
      → (((run_healthcheck net url w).0 ≡ 0) × IsAnswered url w)
        ⊎ (((run_healthcheck net url w).0 ≡ 1) × ¬ IsAnswered url w)
  unfolding run_healthcheck IsAnswered
  run_healthcheck_lem url w =
      let ctx : Context = with_timeout background healthcheck_timeout in
      elim (Result-cases (net.new_request ctx url)) [
        | inr (x, e) ↦
            inr (rw (run_healthcheck, e) refl, λ h. let h0 = h.0 in absurd (ground arith))
        | inl (tt, e) ↦ elim (Result-cases ((net.send ctx url w).0)) [
          | inr (x, f) ↦
              inr (rw (run_healthcheck, e, f) refl, λ h. let h1 = h.1 in absurd (ground arith))
          | inl (status, f) ↦ elim (Bool-cases (nat_eq status 200)) [
            | inl y ↦
                let same : status ≡ 200 = ground arith in
                inl (rw (run_healthcheck, e, f, y) refl, (e, rw (← same) f))
            | inr n ↦
                inr (rw (run_healthcheck, e, f, n) refl, λ h. let h1 = h.1 in absurd (ground arith))
          ]
        ]
      ]

  -- When loadConfig accepts the environment, --healthcheck in it exits with 0 exactly when a GET of
  -- /healthz on the server's own port is answered with status 200 within two seconds, and with 1
  -- otherwise.
  pub healthcheck-load_config :
      (lib : GoLib) (getenv : Env) (cfg : Config) (w : W)
      → load_config lib getenv ≡ ok cfg
      → let url = append "http://127.0.0.1:" (append (format_int cfg.port) "/healthz") in
        (((healthcheck net getenv w).0 ≡ 0) × IsAnswered url w)
        ⊎ (((healthcheck net getenv w).0 ≡ 1) × ¬ IsAnswered url w)
  unfolding healthcheck
  healthcheck-load_config lib getenv cfg w loaded =
      let same = probe_port-load_config lib getenv cfg loaded in
      rw (← same) (run_healthcheck_lem (probe_url getenv) w)
