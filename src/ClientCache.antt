-- ===== src/ClientCache.antt =====
-- The map from impersonation target to client that both caches keep under their mutex
-- (internal/collector/cache.go and internal/gmp/cache.go, Get). The mutex makes each call one step.
pub mod Laws
pub mod Split
use mathlib.Core.List.{lookup}
use gcp_metrics_exporter.Common.{
  String, Option, none, some, List, [], ◌∷◌, if◌then◌else◌, String-discrete,
}
use gcp_metrics_exporter.Api.Context.{Context}
use gcp_metrics_exporter.Errors.{Result, ok, err}
use gcp_metrics_exporter.Effects.{Io}
use gcp_metrics_exporter.Strings.{is_empty}
use gcp_metrics_exporter.Auth.{AuthConfig}

abbrev pub Clients : Type 0 → Type 0
Clients C = List (String × C)

-- The configuration for a target: "" keeps the cache's own.
unfoldable pub config_for : AuthConfig → String → AuthConfig
config_for cfg sa = if is_empty sa then cfg else record cfg { impersonate_service_account = sa }

-- The client of a target, built on first use: the client or an error, and the map and the world after.
unfoldable pub get_or_build :
    {W C : Type 0}
    → (Context → String → Io W C)
    → Context
    → String
    → Clients C
    → W
    → Result C × (Clients C × W)
get_or_build build ctx sa clients w = elim (lookup String-discrete sa clients) [
  | some c ↦ (ok c, (clients, w))
  | none ↦ elim ((build ctx sa w).0) [
    | err e ↦ (err e, (clients, (build ctx sa w).1))
    | ok c ↦ (ok c, ((sa, c) ∷ clients, (build ctx sa w).1))
  ]
]
