-- ===== src/Collector/Descriptor/Cache.antt =====
-- What the unit cache remembers.
use mathlib.Core.List.{lookup}
use gcp_metrics_exporter.Common.{◌≡◌, ◌⊎◌, String, none, some, String-discrete}
use gcp_metrics_exporter.Errors.{Error, ok, err}
use gcp_metrics_exporter.Api.Monitoring.{Code, not_found, permission_denied, unimplemented}
use gcp_metrics_exporter.Api.Sdk.{Sdk}
use gcp_metrics_exporter.Collector.Descriptor.{
  DescriptorCache, GetDescriptor, descriptor_key, descriptor_name, unit,
}

-- The answer is now in the cache: any later lookup gives it again and leaves the cache alone,
-- whatever the API would answer.
abbrev pub Sticks : Sdk → String → String → String × DescriptorCache → Type 0
Sticks sdk project metric_type answer =
    (later : GetDescriptor) → unit sdk later project metric_type answer.1 ≡ answer

module _ (sdk : Sdk) (project metric_type : String) where
  abbrev key : String
  key = descriptor_key project metric_type

-- The codes of a failure that will last: the descriptor is not there, may not be read, or there is no
-- such call.
abbrev pub IsLasting : Code → Type 0
IsLasting code = ((code ≡ not_found) ⊎ (code ≡ permission_denied)) ⊎ (code ≡ unimplemented)

-- The four outcomes of a lookup.
pub data Outcome (sdk : Sdk) (get : GetDescriptor) (project metric_type : String)
    (cache : DescriptorCache) (answer : String × DescriptorCache) : Type 0 where
  cached :
      (u : String)
      → lookup String-discrete (descriptor_key project metric_type) cache ≡ some u
      → answer ≡ (u, cache)
      → Sticks sdk project metric_type answer
      → Outcome sdk get project metric_type cache answer
  given :
      (u : String)
      → lookup String-discrete (descriptor_key project metric_type) cache ≡ none
      → get (descriptor_name project metric_type) ≡ ok u
      → answer.0 ≡ u
      → Sticks sdk project metric_type answer
      → Outcome sdk get project metric_type cache answer
  lost :
      (e : Error)
      → lookup String-discrete (descriptor_key project metric_type) cache ≡ none
      → get (descriptor_name project metric_type) ≡ err e
      → IsLasting (sdk.status_code e)
      → answer.0 ≡ ""
      → Sticks sdk project metric_type answer
      → Outcome sdk get project metric_type cache answer
  retried :
      (e : Error)
      → lookup String-discrete (descriptor_key project metric_type) cache ≡ none
      → get (descriptor_name project metric_type) ≡ err e
      → ¬ IsLasting (sdk.status_code e)
      → answer ≡ ("", cache)
      → Outcome sdk get project metric_type cache answer
