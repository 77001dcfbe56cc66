-- ===== src/Auth/Scopes.antt =====
-- Which calls NewTokenSource can make, and with which scopes (internal/auth/auth.go).
use gcp_metrics_exporter.Common.{
  ◌≡◌, ◌≢◌, ◌⊎◌, refl, sym, ap, ◌∙◌, inl, inr, String, List, [], ◌∷◌, Bool-cases,
}
use gcp_metrics_exporter.Api.Context.{Context}
use gcp_metrics_exporter.Effects.{Keeps, >>=-Keeps, failing_as-Keeps}
use gcp_metrics_exporter.Strings.{is_empty}
use gcp_metrics_exporter.Strings.Trim.{is_empty_iff, filled}
use gcp_metrics_exporter.Auth.{
  AuthConfig, Google, impersonator_scope, default_monitoring_read_scope, scopes_or_default,
  load_base_credentials, new_token_source,
}

-- The scopes that the configuration is for: its own, monitoring.read when it has none.
pub data AreWanted (cfg : AuthConfig) (scopes : List String) : Type 0 where
  own : cfg.scopes ≢ [] → scopes ≡ cfg.scopes → AreWanted cfg scopes
  read_only : cfg.scopes ≡ [] → scopes ≡ default_monitoring_read_scope ∷ [] → AreWanted cfg scopes

-- The scopes of the base credentials: the wanted ones, or those of an impersonator.
pub data AreBase (cfg : AuthConfig) (scopes : List String) : Type 0 where
  direct : cfg.impersonate_service_account ≡ "" → AreWanted cfg scopes → AreBase cfg scopes
  impersonator :
      cfg.impersonate_service_account ≢ "" → scopes ≡ impersonator_scope ∷ [] → AreBase cfg scopes

-- The calls that may be made for a configuration keep the property P of the world.
pub record MayCall {W B T : Type 0} (g : Google W B T) (P : W → Type 0) (ctx : Context)
    (cfg : AuthConfig) : Type 0 where
  pub reading : cfg.credentials_file ≢ "" → Keeps P (g.read_file cfg.credentials_file)
  pub parsing :
      (b : B) (scopes : List String)
      → cfg.credentials_file ≢ ""
      → AreBase cfg scopes
      → Keeps P (g.credentials_from_json ctx b scopes)
  pub finding :
      (scopes : List String)
      → cfg.credentials_file ≡ ""
      → AreBase cfg scopes
      → Keeps P (g.find_default_credentials ctx scopes)
  pub minting :
      (base : T) (scopes : List String)
      → cfg.impersonate_service_account ≢ ""
      → AreWanted cfg scopes
      → Keeps P
          (g.credentials_token_source ctx cfg.impersonate_service_account scopes cfg.lifetime base)

List-cases {ℓ} :
    {A : Type ℓ} (xs : List A) → (xs ≡ []) ⊎ ((x : A) × (rest : List A) × (xs ≡ x ∷ rest))
List-cases [] = inl refl
List-cases (x ∷ rest) = inr (x, rest, refl)

scopes_or_default-AreWanted : (cfg : AuthConfig) → AreWanted cfg (scopes_or_default cfg.scopes)
scopes_or_default-AreWanted cfg = elim (List-cases cfg.scopes) [
  | inl none_given ↦ read_only none_given (ap scopes_or_default none_given)
  | inr (s, rest, given) ↦ own (λ empty. cc) (ap scopes_or_default given ∙ sym given)
]

module _ {W B T : Type 0} (g : Google W B T) (P : W → Type 0) (ctx : Context) (cfg : AuthConfig)
    (may : MayCall g P ctx cfg) where
  load_base-Keeps :
      (scopes : List String)
      → AreBase cfg scopes
      → Keeps P (load_base_credentials g ctx cfg.credentials_file scopes)
  unfolding load_base_credentials
  load_base-Keeps scopes base = elim (Bool-cases (is_empty cfg.credentials_file)) [
    | inl none_given ↦
        rw none_given
          (failing_as-Keeps P _ _ (may.finding scopes ((is_empty_iff _).0 none_given) base))
    | inr given ↦
        let file = filled _ given in
        rw given (
          >>=-Keeps P _ _ (failing_as-Keeps P _ _ (may.reading file))
            λ b. failing_as-Keeps P _ _ (may.parsing b scopes file base))
  ]

  -- Least privilege: NewTokenSource reads no file but the configured one, and only if there is one; it
  -- asks for the cloud-platform scope only if it impersonates, and then for nothing else with the base
  -- credentials; the target's token, or the token when it does not impersonate, is for the configured
  -- scopes, or monitoring.read alone when there are none. So whatever those calls keep, it keeps.
  pub new_token_source-Keeps : Keeps P (new_token_source g ctx cfg)
  unfolding new_token_source
  new_token_source-Keeps = elim (Bool-cases (is_empty cfg.impersonate_service_account)) [
    | inl none_given ↦ rw none_given (
        load_base-Keeps _
          (direct ((is_empty_iff _).0 none_given) (scopes_or_default-AreWanted cfg)))
    | inr given ↦
        let target = filled _ given in
        rw given (
          >>=-Keeps P _ _ (load_base-Keeps _ (impersonator target refl)) λ base.
            failing_as-Keeps P _ _ (may.minting base _ target (scopes_or_default-AreWanted cfg)))
  ]
