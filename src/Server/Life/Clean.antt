-- ===== src/Server/Life/Clean.antt =====
-- The clients that the process hands out, and when they are closed (cmd/server/main.go with
-- internal/collector/cache.go).
use gcp_metrics_exporter.Common.{◌≡◌, ap, ◌∙◌, String, ◌∷◌}
use gcp_metrics_exporter.Errors.{Result, ok}
use gcp_metrics_exporter.Api.Context.{Context}
use gcp_metrics_exporter.ClientCache.{Clients}
use gcp_metrics_exporter.ClientCache.Laws.{GetRun, IsMap, stop, more}
use gcp_metrics_exporter.ClientCache.Split.{IsOnly, lookup-IsOnly}
use gcp_metrics_exporter.Collector.Clients.{get}
use gcp_metrics_exporter.Collector.Clients.Laws.{
  get_stays, GetRun-IsMap, closed_world, closed_world-append,
}
use gcp_metrics_exporter.Server.Config.{Config}
use gcp_metrics_exporter.Server.Wiring.{auth_config}
use gcp_metrics_exporter.Server.Factory.{Stores, Imports}
use gcp_metrics_exporter.Server.Factory.Made.{state_after}
use gcp_metrics_exporter.Server.Life
use gcp_metrics_exporter.Server.Life.{
  fresh, Step, get_client, get_http_client, store_unit, elsewhere, Run,
}
use gcp_metrics_exporter.Server.Shutdown.{Serving, on_signal}
use gcp_metrics_exporter.Server.Shutdown.Laws.{shut, on_signal-closes}

module _ {W T C F B R D : Type 0} (imp : Imports W T C F B R D) (cfg : Config) where
  -- What the steps do to the cache of clients is a sequence of Gets.
  run-GetRun :
      {a b : Stores W T C}
      → Run imp cfg a b
      → GetRun (get imp.google imp.dialing (auth_config cfg)) a.clients b.clients
  run-GetRun Life.stop = stop
  run-GetRun (Life.more {mid = mid} run (get_client ctx sa)) =
      more (run-GetRun run) ctx sa mid.outside
  run-GetRun (Life.more run (get_http_client ctx sa)) = run-GetRun run
  run-GetRun (Life.more run (store_unit _ _)) = run-GetRun run
  run-GetRun (Life.more run (elsewhere w)) = run-GetRun run

  gets_then :
      {a b c : Clients C}
      → GetRun (get imp.google imp.dialing (auth_config cfg)) a b
      → GetRun (get imp.google imp.dialing (auth_config cfg)) b c
      → GetRun (get imp.google imp.dialing (auth_config cfg)) a c
  gets_then r stop = r
  gets_then r (more s ctx sa w) = more (gets_then r s) ctx sa w

  abbrev pub given : Context → String → Stores W T C → Result C
  given ctx sa st = (get imp.google imp.dialing (auth_config cfg) ctx sa st.clients st.outside).0

  -- However the steps of requests interleave from the start of the process on: if the cache hands out
  -- a client for a target at any time before the signal, and the requests that go on during
  -- http.Server.Shutdown do nothing to the cache but Gets, then when Shutdown returns the client is in
  -- the cache, with no other client for that target, and main closes it exactly there in its sequence
  -- of closes, before it waits for the listener.
  pub on_signal-IsOnly :
      (quote : String → String) (srv : Serving W C) (w : W) (ctx : Context) (sa : String) (c : C)
      {st end : Stores W T C}
      → Run imp cfg (fresh w) st
      → given ctx sa st ≡ ok c
      → Run imp cfg (state_after imp cfg ctx sa st) end
      → GetRun
          (get imp.google imp.dialing (auth_config cfg))
          end.clients
          ((shut srv cfg end.clients end.outside).1.0)
      → let drained = (shut srv cfg end.clients end.outside).1 in
        (only : IsOnly sa c (drained.0)) × (let before =
            closed_world imp.dialing only.before (drained.1) in
          (on_signal imp.dialing quote srv cfg end.clients end.outside).world
          ≡ (srv.listener (closed_world imp.dialing only.after ((imp.dialing.close c before).1))).1)
  unfolding closed_world
  on_signal-IsOnly quote srv w ctx sa c {st = st} {end = end} start h later drain =
      let at_start : IsMap st.clients =
        GetRun-IsMap imp.google imp.dialing (auth_config cfg) (run-GetRun start) tt in
      let at_get =
        GetRun-IsMap imp.google imp.dialing (auth_config cfg) (more stop ctx sa st.outside)
          at_start in
      let drained = (shut srv cfg end.clients end.outside).1 in
      let rest = gets_then (run-GetRun later) drain in
      let at_end : IsMap (drained.0) =
        GetRun-IsMap imp.google imp.dialing (auth_config cfg) rest at_get in
      let cached =
        get_stays imp.google imp.dialing (auth_config cfg) ctx sa st.clients (drained.0) st.outside
          c h rest in
      let only = lookup-IsOnly sa c (drained.0) cached at_end in
      (
        only,
        (on_signal-closes imp.dialing quote srv cfg end.clients end.outside).1.0
            ∙ ap (λ w'. (srv.listener w').1)
                (ap (λ m. closed_world imp.dialing m (drained.1)) only.split
                  ∙ closed_world-append imp.dialing only.before ((sa, c) ∷ only.after) (drained.1)),
      )
