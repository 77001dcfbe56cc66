-- ===== src/Server/Wiring/Accepted.antt =====
-- What the rest of the process can rely on in a configuration that loadConfig accepts
-- (cmd/server/main.go).
use Prim.Native.String.{◌++◌ as append}
use gcp_metrics_exporter.Common.{
  ◌≡◌, ◌≢◌, inl, inr, refl, sym, ◌∙◌, String, true, false, lt→ltb, le→not-ltb, some, [], ◌∷◌,
  Bool-cases, arith,
}
use gcp_metrics_exporter.Common.Int.{ℤ, pos, negsuc, ◌<ℤ◌, ◌≤ℤ◌, is_nonpos, ltb_ℤ, not_positive}
use gcp_metrics_exporter.Errors.{ok}
use gcp_metrics_exporter.Strings.{is_empty, format_int}
use gcp_metrics_exporter.Strings.Atoi.{atoi}
use gcp_metrics_exporter.Strings.Atoi.RoundTrip.{IsInt, atoi-format_int}
use gcp_metrics_exporter.Strings.Trim.{is_empty_iff, filled}
use gcp_metrics_exporter.Api.Sdk.{GoLib}
use gcp_metrics_exporter.Collector.Params.{resolve_max_series}
use gcp_metrics_exporter.Handler.Http.{Level, level_debug, level_info, level_warn, level_error}
use gcp_metrics_exporter.Handler.Limits.{
  default_int, default_scrape_timeout, default_max_concurrent, default_max_series, resolve_limits,
  resolve_gmp_limits,
}
use gcp_metrics_exporter.Server.Config.{Env, Config, default_port, load_config}
use gcp_metrics_exporter.Server.Config.Rules.{Stands, word, duration, count, accepts, refuses}
use gcp_metrics_exporter.Server.Config.Loads.{IsLoaded, load_config-Loading}
use gcp_metrics_exporter.Server.Healthcheck.{probe_port, probe_url}
use gcp_metrics_exporter.Server.Logger.{Format, text_handler, json_handler, build_logger}
use gcp_metrics_exporter.Server.Wiring.{limits_of, listen_address}

abbrev level_name : Level → String
level_name level_debug = "debug"
level_name level_info = "info"
level_name level_warn = "warn"
level_name level_error = "error"

abbrev format_name : Format → String
format_name text_handler = "text"
format_name json_handler = "json"

kept : (fallback n : ℤ) → pos 0 <ℤ n → default_int fallback n ≡ n
kept fallback n h = elim (Bool-cases (is_nonpos n)) [
  | inl z ↦ absurd (not_positive n z h)
  | inr z ↦ rw z refl
]

kept_series : (n : ℤ) → pos 0 <ℤ n → pos (resolve_max_series n) ≡ n
unfolding resolve_max_series
kept_series (pos n) h = elim (Bool-cases (is_nonpos (pos n))) [
  | inl z ↦ absurd (not_positive (pos n) z h)
  | inr z ↦ rw z refl
]
kept_series (negsuc n) h = absurd (omega arith)

module _ (lib : GoLib) (getenv : Env) where
  duration_positive :
      (name : String) (fallback d : ℤ)
      → pos 0 <ℤ fallback
      → Stands lib getenv duration name fallback d
      → pos 0 <ℤ d
  duration_positive name fallback d h (inl (_, e)) = rw e h
  duration_positive name fallback d h (inr (_, (_, p))) = p

  count_positive :
      (name : String) (fallback d : ℤ)
      → pos 0 <ℤ fallback
      → Stands lib getenv count name fallback d
      → pos 0 <ℤ d
  count_positive name fallback d h (inl (_, e)) = rw e h
  count_positive name fallback d h (inr (_, (_, p))) = p

  level_kept :
      (f l : String)
      → Stands lib getenv
          (word ("debug" ∷ ("info" ∷ ("warn" ∷ ("error" ∷ [])))))
          "LOG_LEVEL"
          "info"
          l
      → level_name ((build_logger l f).level) ≡ l
  unfolding build_logger
  level_kept f l (inl (_, e)) = rw e refl
  level_kept f l (inr (_, (_, inl e))) = rw e refl
  level_kept f l (inr (_, (_, inr (inl e)))) = rw e refl
  level_kept f l (inr (_, (_, inr (inr (inl e))))) = rw e refl
  level_kept f l (inr (_, (_, inr (inr (inr (inl e)))))) = rw e refl
  level_kept f l (inr (_, (_, inr (inr (inr (inr x)))))) = elim x [ ]

  format_kept :
      (l f : String)
      → Stands lib getenv (word ("json" ∷ ("text" ∷ []))) "LOG_FORMAT" "json" f
      → format_name ((build_logger l f).format) ≡ f
  unfolding build_logger
  format_kept l f (inl (_, e)) = rw e refl
  format_kept l f (inr (_, (_, inl e))) = rw e refl
  format_kept l f (inr (_, (_, inr (inl e)))) = rw e refl
  format_kept l f (inr (_, (_, inr (inr x)))) = elim x [ ]

-- The handlers, the collector and the logger keep what the configuration says.
pub record IsKept (cfg : Config) : Type 0 where
  pub metrics : resolve_limits (limits_of cfg) ≡ limits_of cfg
  pub gmp : resolve_gmp_limits (limits_of cfg) ≡ limits_of cfg
  pub cap : pos (resolve_max_series ((limits_of cfg).max_series)) ≡ cfg.max_series
  pub level : level_name ((build_logger cfg.log_level cfg.log_format).level) ≡ cfg.log_level
  pub format : format_name ((build_logger cfg.log_level cfg.log_format).format) ≡ cfg.log_format
  pub grace : pos 0 <ℤ cfg.shutdown_grace

probe_unset : (getenv : Env) → getenv "PORT" ≡ "" → probe_port getenv ≡ default_port
unfolding probe_port
probe_unset getenv unset = rw unset refl

probe_set :
    (getenv : Env) (n : ℤ)
    → getenv "PORT" ≢ ""
    → atoi (getenv "PORT") ≡ some n
    → pos 1 ≤ℤ n
    → n ≤ℤ pos 65535
    → probe_port getenv ≡ n
unfolding probe_port
probe_set getenv n set read low high = elim (Bool-cases (is_empty (getenv "PORT"))) [
  | inl e ↦ absurd (set ((is_empty_iff _).0 e))
  | inr filled ↦
      let above : ltb_ℤ (pos 0) n ≡ true = lt→ltb _ _ (omega arith) in
      let below : ltb_ℤ (pos 65535) n ≡ false = le→not-ltb _ _ high in
      rw (filled, read, above, below) refl
]

small : (n : ℤ) → pos 1 ≤ℤ n → n ≤ℤ pos 65535 → IsInt n
small (pos n) low high = omega arith
small (negsuc n) low high = absurd (omega arith)

print_filled : (n : ℤ) → IsInt n → format_int n ≢ ""
unfolding atoi
print_filled n h e =
    let read = atoi-format_int n h in
    let bad : atoi "" ≡ some n = rw e at read in absurd (ground arith)

module _ (lib : GoLib) (getenv : Env) (cfg : Config)
    (loaded : load_config lib getenv ≡ ok cfg) where
  load_config-IsLoaded : IsLoaded lib getenv cfg
  load_config-IsLoaded = elim (load_config-Loading lib getenv) [
    | accepts _ c e l ↦ let same : c ≡ cfg = cc in rw (← same) l
    | refuses x _ e ↦ absurd (ground arith)
  ]

  -- In a configuration that loadConfig returns, no default of a constructor fires: both handlers keep
  -- the limits that main passes, and the collector keeps the cap on the series; the logger has the
  -- level and the format that the configuration names; and the shutdown has a positive grace.
  pub load_config-IsKept : IsKept cfg
  unfolding resolve_limits resolve_gmp_limits
  load_config-IsKept =
      let l = load_config-IsLoaded in
      let timeout = duration_positive lib getenv _ _ _ (omega arith) l.timeout_stands in
      let concurrent = count_positive lib getenv _ _ _ (omega arith) l.concurrent_stands in
      let series = count_positive lib getenv _ _ _ (omega arith) l.series_stands in
      record {
        metrics =
            rw
              (
                kept default_scrape_timeout cfg.scrape_timeout timeout,
                kept default_max_concurrent cfg.max_concurrent concurrent,
                kept default_max_series cfg.max_series series,
              )
              refl;
        gmp =
            rw
              (
                kept default_scrape_timeout cfg.scrape_timeout timeout,
                kept default_max_concurrent cfg.max_concurrent concurrent,
              )
              refl;
        cap = kept_series _ series;
        level = level_kept lib getenv _ _ l.level_stands;
        format = format_kept lib getenv _ _ l.format_stands;
        grace = duration_positive lib getenv _ _ _ (omega arith) l.grace_stands;
      }

  -- When loadConfig accepts the environment, --healthcheck in the same environment probes the port
  -- that the server listens on.
  pub probe_port-load_config : probe_port getenv ≡ cfg.port
  probe_port-load_config = elim (load_config-IsLoaded.port_stands) [
    | inl (unset, e) ↦ probe_unset getenv unset ∙ sym e
    | inr (set, (read, (low, high))) ↦ probe_set getenv cfg.port set read low high
  ]

  -- If PORT is the decimal print of a number in 1..65535, the server listens on that text after a
  -- colon, and the probe's URL has the same text as its port.
  pub listen_address-probe_url :
      (n : ℤ)
      → pos 1 ≤ℤ n
      → n ≤ℤ pos 65535
      → getenv "PORT" ≡ format_int n
      → (listen_address cfg ≡ append ":" (getenv "PORT"))
        × (probe_url getenv ≡ append "http://127.0.0.1:" (append (getenv "PORT") "/healthz"))
  listen_address-probe_url n low high printed =
      let fits : IsInt n = small n low high in
      let set : getenv "PORT" ≢ "" = rw printed (print_filled n fits) in
      let read : atoi (getenv "PORT") ≡ some n = rw printed (atoi-format_int n fits) in
      let probed = probe_set getenv n set read low high in
      let served : cfg.port ≡ n = sym probe_port-load_config ∙ probed in
      (rw (served, printed) refl, rw (probed, printed) refl)
