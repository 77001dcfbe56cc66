-- ===== src/Server/Factory/Made.antt =====
-- What main's two factories make, and what they leave of the caches (cmd/server/main.go).
use gcp_metrics_exporter.Common.{◌≡◌, refl, inl, inr, String, arith}
use gcp_metrics_exporter.Errors.{Result-cases, ok, err}
use gcp_metrics_exporter.Api.Context.{Context}
use gcp_metrics_exporter.Collector.Clients.{get}
use gcp_metrics_exporter.Gmp.Clients.{HttpClient, get_http}
use gcp_metrics_exporter.Handler.GmpMetrics.{GmpClient}
use gcp_metrics_exporter.Handler.Metrics.{CollectorOf}
use gcp_metrics_exporter.Server.Config.{Config}
use gcp_metrics_exporter.Server.Wiring.{auth_config}
use gcp_metrics_exporter.Server.Factory.{
  Stores, Imports, collector_of, factory, client_of, gmp_factory,
}

module _ {W T C F B R D : Type 0} (imp : Imports W T C F B R D) (cfg : Config) where
  -- The caches and the world after the cache's Get.
  abbrev pub state_after : Context → String → Stores W T C → Stores W T C
  state_after ctx sa st =
      let got = get imp.google imp.dialing (auth_config cfg) ctx sa st.clients st.outside in
      record st { clients = got.1.0; outside = got.1.1 }

  pub factory_state :
      (ctx : Context) (sa : String) (st : Stores W T C)
      → (factory imp cfg ctx sa st).1 ≡ state_after ctx sa st
  unfolding factory
  factory_state ctx sa st =
      let got = (get imp.google imp.dialing (auth_config cfg) ctx sa st.clients st.outside).0 in
      elim (Result-cases got) [
        | inr (e, k) ↦ rw (k, factory) refl
        | inl (c, k) ↦ rw (k, factory) refl
      ]

  -- What the factory makes, when it makes something.
  pub record IsMade (ctx : Context) (sa : String) (st : Stores W T C)
      (c : CollectorOf (Stores W T C) F) : Type 0 where
    pub client : C
    pub given :
        (get imp.google imp.dialing (auth_config cfg) ctx sa st.clients st.outside).0 ≡ ok client
    pub wrapped : c ≡ collector_of imp cfg client
    pub state : (factory imp cfg ctx sa st).1 ≡ state_after ctx sa st

  pub factory-IsMade :
      (ctx : Context) (sa : String) (st : Stores W T C) (c : CollectorOf (Stores W T C) F)
      → (factory imp cfg ctx sa st).0 ≡ ok c
      → IsMade ctx sa st c
  unfolding factory
  factory-IsMade ctx sa st c h =
      let got = (get imp.google imp.dialing (auth_config cfg) ctx sa st.clients st.outside).0 in
      elim (Result-cases got) [
        | inr (e, k) ↦ let bad : err e ≡ ok c = rw (k, factory) at h in absurd (ground arith)
        | inl (client, k) ↦
            let h' : ok (collector_of imp cfg client) ≡ ok c = rw (k, factory) at h in
            record { client = client; given = k; wrapped = cc; state = rw (k, factory) refl }
      ]

  -- The caches and the world after the HTTP client cache's Get.
  abbrev pub http_state_after : Context → String → Stores W T C → Stores W T C
  http_state_after ctx sa st =
      let got = get_http imp.google (auth_config cfg) ctx sa st.http_clients st.outside in
      record st { http_clients = got.1.0; outside = got.1.1 }

  pub gmp_factory_state :
      (ctx : Context) (sa : String) (st : Stores W T C)
      → (gmp_factory imp cfg ctx sa st).1 ≡ http_state_after ctx sa st
  unfolding gmp_factory
  gmp_factory_state ctx sa st =
      let got = (get_http imp.google (auth_config cfg) ctx sa st.http_clients st.outside).0 in
      elim (Result-cases got) [
        | inr (e, k) ↦ rw (k, gmp_factory) refl
        | inl (c, k) ↦ rw (k, gmp_factory) refl
      ]

  -- What the factory of clients for Managed Prometheus makes, when it makes something.
  pub record IsGmpMade (ctx : Context) (sa : String) (st : Stores W T C)
      (c : GmpClient (Stores W T C) F) : Type 0 where
    pub client : HttpClient T
    pub given :
        (get_http imp.google (auth_config cfg) ctx sa st.http_clients st.outside).0 ≡ ok client
    pub wrapped : c ≡ client_of imp cfg client

  pub gmp_factory-IsGmpMade :
      (ctx : Context) (sa : String) (st : Stores W T C) (c : GmpClient (Stores W T C) F)
      → (gmp_factory imp cfg ctx sa st).0 ≡ ok c
      → IsGmpMade ctx sa st c
  unfolding gmp_factory
  gmp_factory-IsGmpMade ctx sa st c h =
      let got = (get_http imp.google (auth_config cfg) ctx sa st.http_clients st.outside).0 in
      elim (Result-cases got) [
        | inr (e, k) ↦ let bad : err e ≡ ok c = rw (k, gmp_factory) at h in absurd (ground arith)
        | inl (client, k) ↦
            let h' : ok (client_of imp cfg client) ≡ ok c = rw (k, gmp_factory) at h in
            record { client = client; given = k; wrapped = cc }
      ]
