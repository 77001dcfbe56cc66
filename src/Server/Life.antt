-- ===== src/Server/Life.antt =====
-- The life of the process (cmd/server/main.go): what requests do to the caches they share, one atomic
-- step after the other in any interleaving, and the end of it. The client caches work under a
-- mutex, so a step is one call of Get; the map of descriptors is loaded and stored without one, so a
-- step is one store, whatever was loaded before. Everything else changes only the world outside.
pub mod GmpRequests
pub mod Requests
pub mod Clean
use gcp_metrics_exporter.Common.{String, []}
use gcp_metrics_exporter.Api.Context.{Context}
use gcp_metrics_exporter.Errors.{Result}
use gcp_metrics_exporter.Collector.Descriptor.{remember}
use gcp_metrics_exporter.Server.Config.{Config}
use gcp_metrics_exporter.Server.Factory.{Stores, Imports}
use gcp_metrics_exporter.Server.Factory.Made.{state_after, http_state_after}

-- NewClientCache, NewDescriptorCache and gmp.NewClientCache
abbrev pub fresh : {W T C : Type 0} → W → Stores W T C
fresh w = record { clients = []; descriptors = []; http_clients = []; outside = w }

module _ {W T C F B R D : Type 0} (imp : Imports W T C F B R D) (cfg : Config) where
  -- What a lookup of a descriptor stores under its key after Cloud Monitoring's answer.
  abbrev pub after_answer : String → Result String → Stores W T C → Stores W T C
  after_answer key answer st = record st {
    descriptors = (remember imp.sdk key answer st.descriptors).1;
  }

  pub data Step (st : Stores W T C) : Stores W T C → Type 0 where
    -- cache.Get
    get_client : (ctx : Context) (sa : String) → Step st (state_after imp cfg ctx sa st)
    -- gmpCache.Get
    get_http_client : (ctx : Context) (sa : String) → Step st (http_state_after imp cfg ctx sa st)
    store_unit : (key : String) (answer : Result String) → Step st (after_answer key answer st)
    elsewhere : (w : W) → Step st (record st { outside = w })

  pub data Run (st : Stores W T C) : Stores W T C → Type 0 where
    stop : Run st st
    more : {mid end : Stores W T C} → Run st mid → Step mid end → Run st end
