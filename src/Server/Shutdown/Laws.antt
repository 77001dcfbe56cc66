-- ===== src/Server/Shutdown/Laws.antt =====
-- How main ends (cmd/server/main.go).
use gcp_metrics_exporter.Common.{
  ◌≡◌, ◌≢◌, ◌↔◌, ◌⊎◌, inl, inr, refl, String, true, Option, none, some, List, [], ◌∷◌, ◌++◌, All,
  All-append, All-split, Option-cases, Bool-cases, arith,
}
use gcp_metrics_exporter.Errors.{Error, is, server_closed}
use gcp_metrics_exporter.Api.Context.{background, with_timeout}
use gcp_metrics_exporter.ClientCache.{Clients}
use gcp_metrics_exporter.Collector.Clients.{Dialing, Closed, close_all}
use gcp_metrics_exporter.Collector.Clients.Laws.{closed_world, close_all-first}
use gcp_metrics_exporter.Handler.Http.{level_warn, level_error, LogLine}
use gcp_metrics_exporter.Server.Config.{Config}
use gcp_metrics_exporter.Server.Shutdown.{
  Wakeup, listener_returned, signalled, Serving, unexpected, reports, code_of, close_warnings,
  closing, Exit, started, draining, complete, on_listener, on_signal, ends,
}

-- No line has the level Error.
abbrev pub IsQuiet : List LogLine → Type 0
IsQuiet = All (λ l. l.level ≢ level_error)

-- What Shutdown returns after a signal, and the cached clients and the world then.
abbrev pub shut :
    {W C : Type 0} → Serving W C → Config → Clients C → W → Option Error × (Clients C × W)
shut srv cfg clients w = srv.shutdown (with_timeout background cfg.shutdown_grace) clients w

close_warnings-IsQuiet :
    (message : Error → String) (fs : List (String × Error)) → IsQuiet (close_warnings message fs)
unfolding close_warnings
close_warnings-IsQuiet message [] = tt
close_warnings-IsQuiet message (f ∷ fs) = ((λ h. ground arith), close_warnings-IsQuiet message fs)

reports-IsQuiet :
    (message : Error → String) (msg : String) (e : Option Error)
    → IsQuiet (reports message level_warn msg e)
reports-IsQuiet message msg none = tt
reports-IsQuiet message msg (some e) = ((λ h. ground arith), tt)

closing-IsQuiet :
    {W : Type 0} (message : Error → String) (msg : String) (closed : Closed W)
    → IsQuiet (closing message msg closed)
closing-IsQuiet message msg closed =
    All-append (λ l. l.level ≢ level_error) (close_warnings message closed.warnings) _
      (close_warnings-IsQuiet message closed.warnings) (reports-IsQuiet message msg closed.error)

code_iff :
    (a c : Option Error)
    → (code_of (unexpected c) (code_of a 0) ≡ 0)
      ↔ ((a ≡ none) × ((e : Error) → c ≡ some e → is e server_closed ≡ true))
unfolding unexpected
code_iff none none = (λ h. (refl, λ e h'. absurd (ground arith)), λ h. refl)
code_iff (some a) none = (λ h. absurd (ground arith), λ h. let h0 = h.0 in absurd (ground arith))
code_iff none (some c) = elim (Bool-cases (is c server_closed)) [
  | inl y ↦ rw y (λ h. (refl, λ e h'. let same : c ≡ e = cc in rw (← same) y), λ h. refl)
  | inr n ↦ rw n (
    λ h. absurd (ground arith),
    λ h. let bad : is c server_closed ≡ true = h.1 c refl in absurd (ground arith),
  )
]
code_iff (some a) (some c) = elim (Bool-cases (is c server_closed)) [
  | inl y ↦ rw y (λ h. absurd (ground arith), λ h. let h0 = h.0 in absurd (ground arith))
  | inr n ↦ rw n (λ h. absurd (ground arith), λ h. let h0 = h.0 in absurd (ground arith))
]

module _ {W T C : Type 0} (calls : Dialing W T C) (quote : String → String) (srv : Serving W C)
    (cfg : Config) (clients : Clients C) (w : W) where
  on_listener_lem :
      (r : Option Error)
      → ((r' : unexpected r ≡ none) × (on_listener calls quote srv r clients w
            ≡ record { code = 0; logs = []; clients = clients; world = w }))
        ⊎ ((e : Error) × (on_listener calls quote srv r clients w ≡ record {
          code = 1;
          logs =
              reports srv.message level_error "listener failed" (some e)
              ++ closing srv.message "client cache close after listener failure"
                  ((close_all calls quote clients w).0);
          clients = (close_all calls quote clients w).1;
          world = (close_all calls quote clients w).0.world;
        }))
  unfolding on_listener
  on_listener_lem r = elim (Option-cases (unexpected r)) [
    | inl e ↦ inl (e, rw (on_listener, e) refl)
    | inr (x, e) ↦ inr (x, rw (on_listener, e) refl)
  ]

  signal_logs :
      (first last : LogLine) (middle : List LogLine) (a c : Option Error) (s u : String)
      → first.level ≢ level_error
      → IsQuiet middle
      → last.level ≢ level_error
      → let logs =
          first
          ∷ (reports srv.message level_error s a
              ++ (middle ++ (reports srv.message level_error u c ++ last ∷ []))) in
        let code = code_of c (code_of a 0) in
        ((code ≡ 0) × IsQuiet logs) ⊎ ((code ≡ 1) × ¬ IsQuiet logs)
  signal_logs first last middle none none s u f q l =
      inl (refl, (f, All-append (λ x. x.level ≢ level_error) middle (last ∷ []) q (l, tt)))
  signal_logs first last middle none (some c) s u f q l =
      inr (refl, λ h. (All-split (λ x. x.level ≢ level_error) middle _ (h.1)).1.0 refl)
  signal_logs first last middle (some a) none s u f q l = inr (refl, λ h. h.1.0 refl)
  signal_logs first last middle (some a) (some c) s u f q l = inr (refl, λ h. h.1.0 refl)

  after_start :
      (l : LogLine) (x : Exit W C)
      → l.level ≢ level_error
      → ((x.code ≡ 0) × IsQuiet x.logs) ⊎ ((x.code ≡ 1) × ¬ IsQuiet x.logs)
      → ((x.code ≡ 0) × IsQuiet (l ∷ x.logs)) ⊎ ((x.code ≡ 1) × ¬ IsQuiet (l ∷ x.logs))
  after_start l x fine (inl h) = inl (h.0, (fine, h.1))
  after_start l x fine (inr h) = inr (h.0, λ all. h.1 (all.1))

  on_listener-IsQuiet :
      (r : Option Error)
      → let x = on_listener calls quote srv r clients w in
        ((x.code ≡ 0) × IsQuiet x.logs) ⊎ ((x.code ≡ 1) × ¬ IsQuiet x.logs)
  on_listener-IsQuiet r = elim (on_listener_lem r) [
    | inl (_, e) ↦ rw e (inl (refl, tt))
    | inr (x, e) ↦ rw e (inr (refl, λ h. h.0 refl))
  ]

  on_signal-IsQuiet :
      let x = on_signal calls quote srv cfg clients w in
      ((x.code ≡ 0) × IsQuiet x.logs) ⊎ ((x.code ≡ 1) × ¬ IsQuiet x.logs)
  unfolding on_signal
  on_signal-IsQuiet =
      signal_logs (draining cfg) complete _ _ _ _ _ (λ h. ground arith)
        (closing-IsQuiet srv.message "client cache close"
          ((close_all calls quote ((shut srv cfg clients w).1.0) ((shut srv cfg clients w).1.1)).0))
        (λ h. ground arith)

  -- However main is woken, it exits with 0 or 1, and with 0 exactly when no line of main's own,
  -- from "server started" on, has the level Error.
  pub ends-IsQuiet :
      (wakeup : Wakeup)
      → let x = ends calls quote srv cfg wakeup clients w in
        ((x.code ≡ 0) × IsQuiet x.logs) ⊎ ((x.code ≡ 1) × ¬ IsQuiet x.logs)
  unfolding ends started
  ends-IsQuiet (listener_returned r) =
      after_start (started cfg) (on_listener calls quote srv r clients w) (λ h. ground arith)
        (on_listener-IsQuiet r)
  ends-IsQuiet signalled =
      after_start (started cfg) (on_signal calls quote srv cfg clients w) (λ h. ground arith)
        on_signal-IsQuiet

  -- After a signal main calls Shutdown with a deadline of the grace, then closes every client that
  -- is cached by then once, whatever Shutdown returned, and then waits for the listener; Close leaves
  -- no client in the cache.
  -- It exits with 0 exactly when Shutdown returned nil and the listener nil or ErrServerClosed; an
  -- error of a client's Close does not change the exit code.
  pub on_signal-closes :
      let x = on_signal calls quote srv cfg clients w in
      let closed =
        closed_world calls ((shut srv cfg clients w).1.0) ((shut srv cfg clients w).1.1) in
      (x.clients ≡ [])
      × ((x.world ≡ (srv.listener closed).1)
          × ((x.code ≡ 0) ↔ (
              ((shut srv cfg clients w).0 ≡ none)
              × ((e : Error) → (srv.listener closed).0 ≡ some e → is e server_closed ≡ true))))
  unfolding on_signal unexpected
  on_signal-closes =
      let closing =
        close_all-first calls quote ((shut srv cfg clients w).1.0) ((shut srv cfg clients w).1.1) in
      rw (closing, on_signal)
        (
          refl,
          (
            refl,
            code_iff ((shut srv cfg clients w).0) (
                (srv.listener (
                  closed_world calls ((shut srv cfg clients w).1.0)
                    ((shut srv cfg clients w).1.1))).0),
          ),
        )
