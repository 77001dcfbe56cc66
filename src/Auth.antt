-- ===== src/Auth.antt =====
-- internal/auth/auth.go: NewTokenSource and loadBaseCredentials. Google's libraries and the file
-- system are a parameter; they read and change a world W.
pub mod Scopes
use Prim.Native.String.{◌++◌ as append}
use gcp_metrics_exporter.Common.{String, Bool, List, [], ◌∷◌, if◌then◌else◌}
use gcp_metrics_exporter.Api.Context.{Context}
use gcp_metrics_exporter.Errors.{Result}
use gcp_metrics_exporter.Effects.{Io, ◌>>=◌, pure, failing_as}
use gcp_metrics_exporter.Strings.{is_empty}
use gcp_metrics_exporter.Api.Time.{Duration}

abbrev pub default_monitoring_read_scope : String
default_monitoring_read_scope = "https://www.googleapis.com/auth/monitoring.read"

abbrev pub impersonator_scope : String
impersonator_scope = "https://www.googleapis.com/auth/cloud-platform"

-- auth.Config
pub record AuthConfig : Type 0 where
  pub credentials_file : String
  pub impersonate_service_account : String
  pub scopes : List String
  pub lifetime : Duration

-- os.ReadFile, google.CredentialsFromJSON and FindDefaultCredentials with the token source of the
-- credentials that they return, and impersonate.CredentialsTokenSource for a principal, scopes and
-- a lifetime; and fmt's %q. B is a file's content, T a token source.
pub record Google (W B T : Type 0) : Type 0 where
  pub quote : String → String
  pub read_file : String → Io W B
  pub credentials_from_json : Context → B → List String → Io W T
  pub find_default_credentials : Context → List String → Io W T
  pub credentials_token_source : Context → String → List String → Duration → T → Io W T

-- `if len(scopes) == 0 { scopes = []string{DefaultMonitoringReadScope} }`
abbrev pub scopes_or_default : List String → List String
scopes_or_default [] = default_monitoring_read_scope ∷ []
scopes_or_default (s ∷ rest) = s ∷ rest

abbrev pub file_error : String → String → String
file_error doing quoted =
    append "auth: " (append doing (append " credentials file " (append quoted ": ")))

module _ {W B T : Type 0} (g : Google W B T) where
  unfoldable pub load_base_credentials : Context → String → List String → Io W T
  load_base_credentials ctx file scopes =
      if is_empty file
      then failing_as "auth: find default credentials: " (g.find_default_credentials ctx scopes)
      else do
        content ← failing_as (file_error "read" (g.quote file)) (g.read_file file)
        failing_as (file_error "parse" (g.quote file)) (g.credentials_from_json ctx content scopes)

  unfoldable pub new_token_source : Context → AuthConfig → Io W T
  unfolding load_base_credentials
  new_token_source ctx cfg =
      let scopes = scopes_or_default cfg.scopes in
      if is_empty cfg.impersonate_service_account
      then load_base_credentials ctx cfg.credentials_file scopes
      else do
        base ← load_base_credentials ctx cfg.credentials_file (impersonator_scope ∷ [])
        failing_as "auth: build impersonated token source: " (
            g.credentials_token_source ctx cfg.impersonate_service_account scopes cfg.lifetime base)
