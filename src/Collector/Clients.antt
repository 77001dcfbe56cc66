-- ===== src/Collector/Clients.antt =====
-- internal/collector/cache.go: ClientCache. Building a client (auth.NewTokenSource, then the dialer)
-- and closing one read and change a world W.
pub mod Laws
use Prim.Native.String.{◌++◌ as append}
use gcp_metrics_exporter.Common.{String, Option, none, some, List, [], ◌∷◌}
use gcp_metrics_exporter.Api.Context.{Context}
use gcp_metrics_exporter.Errors.{Error, wrap, Result}
use gcp_metrics_exporter.Effects.{Io, ◌>>=◌, failing_as}
use gcp_metrics_exporter.Auth.{AuthConfig, Google, new_token_source}
use gcp_metrics_exporter.ClientCache.{Clients, config_for, get_or_build}

-- The dialer, and a client's Close.
pub record Dialing (W T C : Type 0) : Type 0 where
  pub dial : Context → T → Io W C
  pub close : C → W → Option Error × W

module _ {W B T C : Type 0} (g : Google W B T) (calls : Dialing W T C) where
  -- The client for a target: what Get does on a miss.
  unfoldable pub build : AuthConfig → Context → String → Io W C
  build cfg ctx sa = do
    ts ← failing_as "collector: build token source: " (new_token_source g ctx (config_for cfg sa))
    failing_as "collector: dial monitoring client: " (calls.dial ctx ts)

  -- ClientCache.Get: the client or an error, the map and the world after it.
  unfoldable pub get : AuthConfig → Context → String → Clients C → W → Result C × (Clients C × W)
  get cfg = get_or_build (build cfg)

-- The error that Close reports for a client.
abbrev pub close_error : (String → String) → String → Error → Error
close_error quote sa x = wrap (append "collector: close client for " (append (quote sa) ": ")) x ""

-- What the loop of Close leaves: the first error, the later ones, which are logged as warnings with
-- their targets, and the world.
pub record Closed (W : Type 0) : Type 0 where
  pub error : Option Error
  pub warnings : List (String × Error)
  pub world : W

module _ {W T C : Type 0} (calls : Dialing W T C) (quote : String → String) where
  -- The loop of Close over the map, in the order of the range statement, after `first`.
  unfoldable pub close_from : Option Error → Clients C → W → Closed W
  close_from first [] w = record { error = first; warnings = []; world = w }
  close_from first (e ∷ rest) w = elim ((calls.close (e.1) w).0) [
    | none ↦ close_from first rest ((calls.close (e.1) w).1)
    | some x ↦ elim first [
      | none ↦ close_from (some (close_error quote (e.0) x)) rest ((calls.close (e.1) w).1)
      | some f ↦
          let later = close_from (some f) rest ((calls.close (e.1) w).1) in
          record later { warnings = (e.0, x) ∷ later.warnings }
    ]
  ]

  -- ClientCache.Close, and the emptied map.
  unfoldable pub close_all : Clients C → W → Closed W × Clients C
  unfolding close_from
  close_all clients w = (close_from none clients w, [])
