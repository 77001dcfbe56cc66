-- ===== src/Gmp/Clients/Laws.antt =====
-- What the cache of HTTP clients hands out (internal/gmp/cache.go).
use gcp_metrics_exporter.Common.{◌≡◌, String}
use gcp_metrics_exporter.Api.Context.{Context}
use gcp_metrics_exporter.Errors.{ok}
use gcp_metrics_exporter.Auth.{AuthConfig, Google}
use gcp_metrics_exporter.ClientCache.{Clients}
use gcp_metrics_exporter.ClientCache.Laws.{GetRun, IsMap, get_or_build_sticks, run-IsMap}
use gcp_metrics_exporter.Gmp.Clients.{HttpClient, build_http, get_http}

module _ {W B T : Type 0} (g : Google W B T) (cfg : AuthConfig) where
  -- Once Get has given an HTTP client for a target, every later Get for that target gives the same one
  -- and builds nothing, whatever Gets for any targets come in between; and if no target had two
  -- entries at first, none has later.
  pub get_http_sticks :
      (ctx ctx' : Context) (sa : String) (m m' : Clients (HttpClient T)) (w w' : W)
      (c : HttpClient T)
      → (get_http g cfg ctx sa m w).0 ≡ ok c
      → GetRun (get_http g cfg) ((get_http g cfg ctx sa m w).1.0) m'
      → (get_http g cfg ctx' sa m' w' ≡ (ok c, (m', w')))
        × (IsMap ((get_http g cfg ctx sa m w).1.0) → IsMap m')
  unfolding get_http
  get_http_sticks ctx ctx' sa m m' w w' c h run = (
    get_or_build_sticks (build_http g cfg) ctx ctx' sa m m' w w' c h run,
    run-IsMap (build_http g cfg) run,
  )
