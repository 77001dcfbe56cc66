-- ===== src/Gmp/Clients.antt =====
-- internal/gmp/cache.go: ClientCache, whose clients are HTTP clients around a token source.
pub mod Laws
use gcp_metrics_exporter.Common.{String}
use gcp_metrics_exporter.Api.Context.{Context}
use gcp_metrics_exporter.Errors.{Result}
use gcp_metrics_exporter.Effects.{Io, ◌>>=◌, pure, failing_as}
use gcp_metrics_exporter.Auth.{AuthConfig, Google, new_token_source}
use gcp_metrics_exporter.ClientCache.{Clients, config_for, get_or_build}

-- HTTPClient: its transport signs every request with tokens of this source.
pub record HttpClient (T : Type 0) : Type 0 where
  pub source : T

module _ {W B T : Type 0} (g : Google W B T) where
  -- The client for a target: what Get does on a miss.
  unfoldable pub build_http : AuthConfig → Context → String → Io W (HttpClient T)
  build_http cfg ctx sa = do
    ts ← failing_as "gmp: build token source: " (new_token_source g ctx (config_for cfg sa))
    pure (record { source = ts })

  -- ClientCache.Get: the client or an error, the map and the world after it.
  unfoldable pub get_http :
      AuthConfig
      → Context
      → String
      → Clients (HttpClient T)
      → W
      → Result (HttpClient T) × (Clients (HttpClient T) × W)
  get_http cfg = get_or_build (build_http cfg)
