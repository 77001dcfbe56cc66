-- ===== src/Server/Shutdown.antt =====
-- cmd/server/main.go: what main logs when it starts to serve, what it waits for, and how it ends.
pub mod Laws
use gcp_metrics_exporter.Common.{
  ℕ, String, Option, none, some, List, [], ◌∷◌, ◌++◌, not, if◌then◌else◌,
}
use gcp_metrics_exporter.Common.Int.{pos}
use gcp_metrics_exporter.Errors.{Error, is, server_closed}
use gcp_metrics_exporter.Strings.{is_empty}
use gcp_metrics_exporter.Api.Context.{Context, background, with_timeout}
use gcp_metrics_exporter.ClientCache.{Clients}
use gcp_metrics_exporter.Collector.Clients.{Dialing, Closed, close_all}
use gcp_metrics_exporter.Handler.Http.{
  Level, level_info, level_warn, level_error, Value, string, int, span, bool, LogLine,
}
use gcp_metrics_exporter.Server.Config.{Config}

-- What the select of main takes: the value of ListenAndServe, or the first signal.
pub data Wakeup : Type 0 where
  listener_returned : Option Error → Wakeup
  signalled : Wakeup

-- http.Server.Shutdown, while which the requests in flight go on, the value of ListenAndServe once it has returned, and the text of an error.
pub record Serving (W C : Type 0) : Type 0 where
  pub shutdown : Context → Clients C → W → Option Error × (Clients C × W)
  pub listener : W → Option Error × W
  pub message : Error → String

-- The exit code, main's own log lines in order, and the cached clients and the world at the end.
pub record Exit (W C : Type 0) : Type 0 where
  pub code : ℕ
  pub logs : List LogLine
  pub clients : Clients C
  pub world : W

unfoldable pub started : Config → LogLine
started cfg = record {
  level = level_info;
  msg = "server started";
  attrs =
      ("port", int cfg.port)
      ∷ (("log_level", string cfg.log_level)
          ∷ (("log_format", string cfg.log_format)
              ∷ (("scrape_timeout", span cfg.scrape_timeout)
                  ∷ (("max_concurrent", int cfg.max_concurrent)
                      ∷ (("max_series", int cfg.max_series)
                          ∷ (("shutdown_grace", span cfg.shutdown_grace)
                              ∷ ((
                                "default_impersonate_sa_set",
                                bool (not (is_empty cfg.default_impersonate_sa)),
                              )
                                  ∷ [])))))));
}

abbrev pub draining : Config → LogLine
draining cfg = record {
  level = level_info;
  msg = "shutdown signal received, draining in-flight requests";
  attrs = ("grace", span cfg.shutdown_grace) ∷ [];
}

abbrev pub complete : LogLine
complete = record { level = level_info; msg = "shutdown complete"; attrs = [] }

-- `err != nil && !errors.Is(err, http.ErrServerClosed)`
unfoldable pub unexpected : Option Error → Option Error
unexpected none = none
unexpected (some e) = if is e server_closed then none else some e

-- The line for an error, if there is one.
abbrev pub reports : (Error → String) → Level → String → Option Error → List LogLine
reports message level msg none = []
reports message level msg (some e) =
    record { level = level; msg = msg; attrs = ("err", string (message e)) ∷ [] } ∷ []

-- The warnings of ClientCache.Close, whose logger is main's.
unfoldable pub close_warnings : (Error → String) → List (String × Error) → List LogLine
close_warnings message [] = []
close_warnings message (f ∷ fs) =
    record {
      level = level_warn;
      msg = "collector: close client";
      attrs = ("impersonate_sa", string (f.0)) ∷ (("err", string (message (f.1))) ∷ []);
    }
    ∷ close_warnings message fs

-- What Close logs, and then main about it.
abbrev pub closing : {W : Type 0} → (Error → String) → String → Closed W → List LogLine
closing message msg closed =
    close_warnings message closed.warnings ++ reports message level_warn msg closed.error

-- `if err != nil { exitCode = 1 }`
abbrev pub code_of : Option Error → ℕ → ℕ
code_of none code = code
code_of (some _) code = 1

module _ {W T C : Type 0} (calls : Dialing W T C) (quote : String → String)
    (srv : Serving W C) where
  unfoldable pub on_listener : Option Error → Clients C → W → Exit W C
  unfolding unexpected
  on_listener returned clients w = elim (unexpected returned) [
    | none ↦ record { code = 0; logs = []; clients = clients; world = w }
    | some e ↦
        let closed = close_all calls quote clients w in
        record {
          code = 1;
          logs =
              reports srv.message level_error "listener failed" (some e)
              ++ closing srv.message "client cache close after listener failure" (closed.0);
          clients = closed.1;
          world = closed.0.world;
        }
  ]

  unfoldable pub on_signal : Config → Clients C → W → Exit W C
  unfolding unexpected
  on_signal cfg clients w =
      let shut = srv.shutdown (with_timeout background cfg.shutdown_grace) clients w in
      let closed = close_all calls quote (shut.1.0) (shut.1.1) in
      let drained = srv.listener (closed.0.world) in
      record {
        code = code_of (unexpected (drained.0)) (code_of (shut.0) 0);
        logs =
            draining cfg
            ∷ (reports srv.message level_error "graceful shutdown failed" (shut.0)
                ++ (closing srv.message "client cache close" (closed.0)
                    ++ (reports srv.message level_error "listener returned error during shutdown"
                          (unexpected (drained.0))
                        ++ complete ∷ [])));
        clients = closed.1;
        world = drained.1;
      }

  -- main from its first log line on: the select, and what follows it.
  unfoldable pub ends : Config → Wakeup → Clients C → W → Exit W C
  unfolding started
  ends cfg wakeup clients w =
      let x : Exit W C = elim wakeup [
        | listener_returned returned ↦ on_listener returned clients w
        | signalled ↦ on_signal cfg clients w
      ] in
      record x { logs = started cfg ∷ x.logs }
