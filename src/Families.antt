-- ===== src/Families.antt =====
-- The map of metric families and the slice of its keys that both collectors keep
-- (internal/collector/collector.go and internal/gmp/collector.go, Collect).
pub mod Distinct
pub mod FamilyOf
pub mod Grouping
pub mod Made
use mathlib.Core.List.{lookup}
use mathlib.Core.Option
use gcp_metrics_exporter.Common.{Option, none, some, List, [], ◌∷◌, ◌++◌, map}
use gcp_metrics_exporter.Api.Prom.{Metric, MetricFamily, nil_family}

-- `families[key]` is the first entry of the key; `order` holds the keys as they first appeared.
pub record Families (K F : Type 0) : Type 0 where
  pub entries : List (K × MetricFamily F)
  pub order : List K

-- One sample: its family's key, the family to make if that key is new, and the metric.
pub record Sample (K F : Type 0) : Type 0 where
  pub key : K
  pub fresh : MetricFamily F
  pub metric : Metric F

abbrev pub no_families : {K F : Type 0} → Families K F
no_families = record { entries = []; order = [] }

-- `fam.Metric = append(fam.Metric, m)`
abbrev pub append_metric : {F : Type 0} → MetricFamily F → Metric F → MetricFamily F
append_metric fam m = record fam { metric = fam.metric ++ m ∷ [] }

module _ {K F : Type 0} (dec : Discrete K) where
  -- One round of the loop: find or make the family of the key, and append the metric to it.
  unfoldable pub add_sample : Sample K F → Families K F → Families K F
  add_sample s st = elim (lookup dec s.key st.entries) [
    | none ↦ record {
      entries = (s.key, append_metric s.fresh s.metric) ∷ st.entries;
      order = st.order ++ s.key ∷ [];
    }
    | some fam ↦ record st { entries = (s.key, append_metric fam s.metric) ∷ st.entries }
  ]

  unfoldable pub add_samples : List (Sample K F) → Families K F → Families K F
  add_samples [] st = st
  add_samples (s ∷ rest) st = add_samples rest (add_sample s st)

  -- `for _, k := range order { out = append(out, families[k]) }`
  unfoldable pub collected : Families K F → List (MetricFamily F)
  collected st = map (λ k. Option.get_or (lookup dec k st.entries) nil_family) st.order
