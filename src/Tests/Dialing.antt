-- ===== src/Tests/Dialing.antt =====
-- internal/auth and the client caches with a dialer that counts its calls.
use mathlib.Core.List.{lookup}
use gcp_metrics_exporter.Common.{ℕ, suc, zero, ◌≡◌, ◌≤◌, refl, String, none, some, [], ◌∷◌, arith}
use gcp_metrics_exporter.Common.Int.{pos}
use gcp_metrics_exporter.Api.Context.{background, request_context}
use gcp_metrics_exporter.Errors.{text, ok}
use gcp_metrics_exporter.Effects.{Keeps}
use gcp_metrics_exporter.Auth.{AuthConfig, Google, load_base_credentials, new_token_source}
use gcp_metrics_exporter.Auth.Scopes.{MayCall, new_token_source-Keeps}
use gcp_metrics_exporter.ClientCache.{Clients, get_or_build, config_for}
use gcp_metrics_exporter.ClientCache.Laws.{IsMap, stop, more}
use gcp_metrics_exporter.Collector.Clients.{Dialing, get, build, close_all}
use gcp_metrics_exporter.Collector.Clients.Laws.{
  get_sticks, first_error, later_errors, failures, closed_world, close_all-first,
}

-- Google's libraries always succeed; the world counts their calls.
abbrev pub counted : Google ℕ String String
counted = record {
  quote = λ s. s;
  read_file = λ file n. (ok file, suc n);
  credentials_from_json = λ ctx content scopes n. (ok content, suc n);
  find_default_credentials = λ ctx scopes n. (ok "default", suc n);
  credentials_token_source = λ ctx target scopes lifetime base n. (ok target, suc n);
}

-- A client is the number of the call that dialled it; the one of call 1 cannot be closed.
abbrev pub numbered : Dialing ℕ String ℕ
numbered = record {
  dial = λ ctx ts n. (ok n, suc n);
  close = λ c n. (elim c [ suc zero ↦ some (text "broken") | _ ↦ none ], suc n);
}

abbrev pub base_config : AuthConfig
base_config = record {
  credentials_file = "";
  impersonate_service_account = "";
  scopes = [];
  lifetime = pos 0;
}

abbrev counting_up : MayCall counted (λ n. 3 ≤ n) background base_config
counting_up = record {
  reading = λ h. record { at = λ w p. omega arith };
  parsing = λ b scopes h a. record { at = λ w p. omega arith };
  finding = λ scopes h a. record { at = λ w p. omega arith };
  minting = λ base scopes h a. record { at = λ w p. omega arith };
}

new_token_source-Keeps_example :
    Keeps (λ n. 3 ≤ n) (new_token_source counted background base_config)
new_token_source-Keeps_example =
    new_token_source-Keeps counted (λ n. 3 ≤ n) background base_config counting_up

abbrev one_client : Clients ℕ
one_client = (get counted numbered base_config background "a" [] 0).1.0

first_get : (get counted numbered base_config background "a" [] 0).0 ≡ ok 2
unfolding get build get_or_build config_for load_base_credentials new_token_source lookup
first_get = refl

get_sticks_example :
    (get counted numbered base_config request_context "a"
        ((get counted numbered base_config background "b" one_client 1).1.0)
        2
      ≡ (ok 2, ((get counted numbered base_config background "b" one_client 1).1.0, 2)))
    × (IsMap one_client
        → IsMap ((get counted numbered base_config background "b" one_client 1).1.0))
get_sticks_example =
    get_sticks counted numbered base_config background request_context "a" []
      ((get counted numbered base_config background "b" one_client 1).1.0) 0 2 2 first_get
      (more stop background "b" 1)

abbrev pair : Clients ℕ
pair = ("a", 1) ∷ (("b", 1) ∷ [])

close_all-first_example : close_all numbered (λ s. s) pair 5 ≡ (
  record {
    error = first_error (λ s. s) (failures numbered pair 5);
    warnings = later_errors (failures numbered pair 5);
    world = closed_world numbered pair 5;
  },
  [],
)
close_all-first_example = close_all-first numbered (λ s. s) pair 5
