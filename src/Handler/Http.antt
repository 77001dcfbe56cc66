-- ===== src/Handler/Http.antt =====
-- internal/handler/handler.go: what a handler writes to its client and to its log, the JSON error
-- body, the liveness handler and the two values made for the log. A header or a body that is not
-- written is left out of a response; the JSON encoding of an error is its message.
use Prim.Native.Char.{code}
use Prim.Native.String.{[], ◌∷◌}
use gcp_metrics_exporter.Common.{ℕ, zero, suc, ◌+◌, String, Bool, List, ◌++◌, ltb, if◌then◌else◌}
use gcp_metrics_exporter.Common.Int.{ℤ, pos, ◌-ℤ◌, ltb_ℤ}
use gcp_metrics_exporter.Strings.{is_empty}
use gcp_metrics_exporter.Api.Time.{Time, Duration, milliseconds}
use gcp_metrics_exporter.Api.Prom.{MetricFamily}
use gcp_metrics_exporter.Api.Sdk.{GoLib}

-- The families of `exposition` are the ones that were encoded in full.
pub data Body (F : Type 0) : Type 0 where
  json_error : String → Body F
  json_ok : Body F
  exposition : List (MetricFamily F) → Body F

pub record Response (F : Type 0) : Type 0 where
  pub status : ℕ
  pub headers : List (String × String)
  pub body : Body F

pub data Level : Type 0 where
  level_debug : Level
  level_info : Level
  level_warn : Level
  level_error : Level

pub data Value : Type 0 where
  string : String → Value
  int : ℤ → Value
  span : Duration → Value
  bool : Bool → Value

pub record LogLine : Type 0 where
  pub level : Level
  pub msg : String
  pub attrs : List (String × Value)

abbrev pub content_type : String → String × String
content_type mime = ("Content-Type", mime)

unfoldable pub write_json_error : {F : Type 0} → List (String × String) → ℕ → String → Response F
write_json_error headers status msg = record {
  status = status;
  headers = headers ++ List.◌∷◌ (content_type "application/json; charset=utf-8") List.[];
  body = json_error msg;
}

unfoldable pub handle_healthz : {F : Type 0} → Response F
handle_healthz = record {
  status = 200;
  headers = List.◌∷◌ (content_type "application/json; charset=utf-8") List.[];
  body = json_ok;
}

unfoldable pub take_text : ℕ → String → String
take_text zero s = []
take_text (suc n) [] = []
take_text (suc n) (c ∷ s) = c ∷ take_text n s

-- The bytes of a character in UTF-8.
abbrev pub rune_len : ℕ → ℕ
rune_len c = if ltb c 0x80 then 1 else if ltb c 0x800 then 2 else if ltb c 0x10000 then 3 else 4

-- `len(s)`
unfoldable pub byte_len : String → ℕ
byte_len [] = 0
byte_len (c ∷ s) = rune_len (code c) + byte_len s

unfoldable pub filter_fingerprint : GoLib → String → String
filter_fingerprint lib filter = if is_empty filter then "" else take_text 12 (lib.sha256_hex filter)

unfoldable pub elapsed_ms : Time → Time → ℤ
unfolding milliseconds
elapsed_ms end start = let d = end -ℤ start in if ltb_ℤ d (pos 0) then pos 0 else milliseconds d
