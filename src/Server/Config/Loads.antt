-- ===== src/Server/Config/Loads.antt =====
-- Which environments loadConfig accepts, what it makes of them, and which variable it blames
-- otherwise (cmd/server/main.go).
use gcp_metrics_exporter.Common.{
  ◌≡◌, inl, inr, refl, sym, String, Bool, true, false, ◌||◌, List, [], ◌∷◌, Bool-cases,
  Option-cases, if◌then◌else◌, arith,
}
use gcp_metrics_exporter.Common.Int.{ℤ, pos, negsuc, ◌≤ℤ◌, is_nonpos, ltb_ℤ, positive, not_positive}
use gcp_metrics_exporter.Errors.{Result, ok, err, ◌>>=◌}
use gcp_metrics_exporter.Strings.{is_empty}
use gcp_metrics_exporter.Strings.Atoi.{atoi}
use gcp_metrics_exporter.Strings.Trim.{is_empty_iff, filled}
use gcp_metrics_exporter.Api.Time.{seconds}
use gcp_metrics_exporter.Api.Sdk.{GoLib}
use gcp_metrics_exporter.Server.Config.{
  Env, Config, setting, default_port, invalid, read_port, read_log_level, read_log_format,
  read_duration, read_count, load_config,
}
use gcp_metrics_exporter.Server.Config.Rules.{
  one_of, one_of-true, one_of-false, Rule, port, word, duration, count, describe, variables,
  ValueOf, Reads, IsSound, Stands, here, there, Loading, accepts, refuses,
}

is_port : (n : ℤ) → (is_nonpos n || ltb_ℤ (pos 65535) n) ≡ false → (pos 1 ≤ℤ n) × (n ≤ℤ pos 65535)
is_port (pos n) h = (ground arith, ground arith)
is_port (negsuc n) h = absurd (ground arith)

not_port :
    (n : ℤ) → (is_nonpos n || ltb_ℤ (pos 65535) n) ≡ true → ¬ ((pos 1 ≤ℤ n) × (n ≤ℤ pos 65535))
not_port n h (low, high) = ground arith

module _ (lib : GoLib) (getenv : Env) where
  -- What the reader of one variable does with a text that is not empty.
  data Reading (r : Rule) (name : String) (read : Result (ValueOf r)) : Type 0 where
    readable :
        (a : ValueOf r) → Reads lib getenv r (getenv name) a → read ≡ ok a → Reading r name read
    unreadable :
        ((a : ValueOf r) → ¬ Reads lib getenv r (getenv name) a)
        → read ≡ err (invalid lib name (describe r) (getenv name))
        → Reading r name read

  -- What becomes of one variable.
  data Setting {A : Type 0} (v : String × Rule) (Q : A → Type 0) (r : Result A) : Type 0 where
    set : IsSound lib getenv v → (a : A) → r ≡ ok a → Q a → Setting v Q r
    blamed :
        ¬ IsSound lib getenv v
        → r ≡ err (invalid lib (v.0) (describe (v.1)) (getenv (v.0)))
        → Setting v Q r

  setting-Setting :
      (name : String) (r : Rule) (fallback : ValueOf r) (read : String → Result (ValueOf r))
      → Reading r name (read (getenv name))
      → Setting (name, r) (Stands lib getenv r name fallback) (setting fallback read (getenv name))
  setting-Setting name r fallback read one = elim (Bool-cases (is_empty (getenv name))) [
    | inl e ↦
        let unset = (is_empty_iff _).0 e in set (inl unset) fallback (rw e refl) (inl (unset, refl))
    | inr n ↦ elim one [
      | readable a h same ↦ set (inr (a, h)) a (rw n same) (inr (filled _ n, h))
      | unreadable fail same ↦
          blamed (λ sound. elim sound [ inl unset ↦ filled _ n unset | inr (a, h) ↦ fail a h ])
            (rw n same)
    ]
  ]

  load_step :
      {A B : Type 0} {v : String × Rule} {vs : List (String × Rule)} {P : A → Type 0}
      {Q : B → Type 0} (r : Result A) (k : A → Result B)
      → Setting v P r
      → ((a : A) → P a → Loading lib getenv vs Q (k a))
      → Loading lib getenv (v ∷ vs) Q (r >>= k)
  load_step r k (blamed unsound e) next = refuses _ (here _ unsound refl) (rw e refl)
  load_step r k (set sound a e p) next = elim (next a p) [
    | accepts all b e' q ↦ accepts (sound, all) b (rw e e') q
    | refuses x blames e' ↦ refuses x (there _ sound blames) (rw e e')
  ]

  read_count-Reading : (name : String) → Reading count name (read_count lib name (getenv name))
  unfolding read_count
  read_count-Reading name = elim (Option-cases (atoi (getenv name))) [
    | inl e ↦ unreadable (λ a h. absurd (ground arith)) (rw (read_count, e) refl)
    | inr (n, e) ↦ elim (Bool-cases (is_nonpos n)) [
      | inl z ↦
          unreadable (λ a h. let same : a ≡ n = cc in not_positive n z (rw same at (h.1)))
            (rw (read_count, e, z) refl)
      | inr z ↦ readable n (e, positive n z) (rw (read_count, e, z) refl)
    ]
  ]

  read_duration-Reading :
      (name : String) → Reading duration name (read_duration lib name (getenv name))
  unfolding read_duration
  read_duration-Reading name = elim (Option-cases (lib.parse_duration (getenv name))) [
    | inl e ↦ unreadable (λ a h. absurd (ground arith)) (rw (read_duration, e) refl)
    | inr (n, e) ↦ elim (Bool-cases (is_nonpos n)) [
      | inl z ↦
          unreadable (λ a h. let same : a ≡ n = cc in not_positive n z (rw same at (h.1)))
            (rw (read_duration, e, z) refl)
      | inr z ↦ readable n (e, positive n z) (rw (read_duration, e, z) refl)
    ]
  ]

  read_port-Reading : Reading port "PORT" (read_port lib (getenv "PORT"))
  unfolding read_port
  read_port-Reading = elim (Option-cases (atoi (getenv "PORT"))) [
    | inl e ↦ unreadable (λ a h. absurd (ground arith)) (rw (read_port, e) refl)
    | inr (n, e) ↦ elim (Bool-cases (is_nonpos n || ltb_ℤ (pos 65535) n)) [
      | inl z ↦
          unreadable (λ a h. let same : a ≡ n = cc in not_port n z (rw same at (h.1)))
            (rw (read_port, e, z) refl)
      | inr z ↦ readable n (e, is_port n z) (rw (read_port, e, z) refl)
    ]
  ]

  word-Reading :
      (name : String) (ws : List String) (test : Bool)
      → test ≡ one_of (lib.to_lower (getenv name)) ws
      → Reading (word ws) name (
          if test
          then ok (lib.to_lower (getenv name))
          else err (invalid lib name (describe (word ws)) (getenv name)))
  word-Reading name ws true e = readable _ (refl, one_of-true _ ws (sym e)) refl
  word-Reading name ws false e =
      unreadable (λ w h. one_of-false _ ws (sym e) (rw (h.0) at (h.1))) refl

  read_log_level-Reading :
      Reading
        (word ("debug" ∷ ("info" ∷ ("warn" ∷ ("error" ∷ [])))))
        "LOG_LEVEL"
        (read_log_level lib (getenv "LOG_LEVEL"))
  unfolding read_log_level one_of
  read_log_level-Reading = word-Reading "LOG_LEVEL" _ _ (ground arith)

  read_log_format-Reading :
      Reading
        (word ("json" ∷ ("text" ∷ [])))
        "LOG_FORMAT"
        (read_log_format lib (getenv "LOG_FORMAT"))
  unfolding read_log_format one_of
  read_log_format-Reading = word-Reading "LOG_FORMAT" _ _ (ground arith)

  -- The value of every field.
  pub record IsLoaded (cfg : Config) : Type 0 where
    pub port_stands : Stands lib getenv port "PORT" default_port cfg.port
    pub credentials : cfg.credentials_file ≡ getenv "GOOGLE_APPLICATION_CREDENTIALS"
    pub impersonation : cfg.default_impersonate_sa ≡ getenv "DEFAULT_IMPERSONATE_SA"
    pub level_stands :
        Stands lib getenv
          (word ("debug" ∷ ("info" ∷ ("warn" ∷ ("error" ∷ [])))))
          "LOG_LEVEL"
          "info"
          cfg.log_level
    pub format_stands :
        Stands lib getenv (word ("json" ∷ ("text" ∷ []))) "LOG_FORMAT" "json" cfg.log_format
    pub timeout_stands : Stands lib getenv duration "SCRAPE_TIMEOUT" (seconds 30) cfg.scrape_timeout
    pub concurrent_stands :
        Stands lib getenv count "MAX_CONCURRENT_SCRAPES" (pos 16) cfg.max_concurrent
    pub series_stands : Stands lib getenv count "MAX_SERIES_PER_REQUEST" (pos 10_000) cfg.max_series
    pub grace_stands : Stands lib getenv duration "SHUTDOWN_GRACE" (seconds 10) cfg.shutdown_grace

  -- loadConfig succeeds exactly when each of the seven variables with a rule is unset, empty or
  -- readable by its rule, and then every field is its variable's value or its default; otherwise the
  -- error names the first variable in order that cannot be read, with its text and its rule.
  pub load_config-Loading : Loading lib getenv variables IsLoaded (load_config lib getenv)
  unfolding load_config
  load_config-Loading =
      load_step _ _ (setting-Setting "PORT" port default_port (read_port lib) read_port-Reading)
        λ p p_stands.
          load_step _ _
            (setting-Setting "LOG_LEVEL" (word _) "info" (read_log_level lib)
              read_log_level-Reading)
            λ l l_stands.
              load_step _ _
                (setting-Setting "LOG_FORMAT" (word _) "json" (read_log_format lib)
                  read_log_format-Reading)
                λ f f_stands.
                  load_step _ _
                    (setting-Setting "SCRAPE_TIMEOUT" duration (seconds 30)
                      (read_duration lib "SCRAPE_TIMEOUT") (read_duration-Reading "SCRAPE_TIMEOUT"))
                    λ t t_stands.
                      load_step _ _
                        (setting-Setting "MAX_CONCURRENT_SCRAPES" count (pos 16)
                          (read_count lib "MAX_CONCURRENT_SCRAPES")
                          (read_count-Reading "MAX_CONCURRENT_SCRAPES"))
                        λ c c_stands.
                          load_step _ _
                            (setting-Setting "MAX_SERIES_PER_REQUEST" count (pos 10_000)
                              (read_count lib "MAX_SERIES_PER_REQUEST")
                              (read_count-Reading "MAX_SERIES_PER_REQUEST"))
                            λ s s_stands.
                              load_step _ _
                                (setting-Setting "SHUTDOWN_GRACE" duration (seconds 10)
                                  (read_duration lib "SHUTDOWN_GRACE")
                                  (read_duration-Reading "SHUTDOWN_GRACE"))
                                λ g g_stands. accepts tt _ refl (record {
                                  port_stands = p_stands;
                                  level_stands = l_stands;
                                  format_stands = f_stands;
                                  timeout_stands = t_stands;
                                  concurrent_stands = c_stands;
                                  series_stands = s_stands;
                                  grace_stands = g_stands;
                                  credentials = refl;
                                  impersonation = refl;
                                })
