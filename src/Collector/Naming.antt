-- ===== src/Collector/Naming.antt =====
-- internal/collector/collector.go: promMetricName.
use Prim.Native.Char.{Char, code}
use Prim.Native.String.{[], ◌∷◌, ◌++◌ as append}
use text.Mathlib.TextLemmas.{nil-append, cons-append}
use gcp_metrics_exporter.Common.{
  ℕ, ◌≡◌, refl, ap, ◌∙◌, ◌↔◌, inl, inr, String, Bool, true, false, ◌||◌, Bool-cases, arith, nat_eq,
  if◌then◌else◌,
}
use gcp_metrics_exporter.Strings.{within}

abbrev pub metric_name_prefix : String
metric_name_prefix = "gcp_"

-- '/', '.' and '-'
unfoldable pub is_separator : ℕ → Bool
is_separator c = nat_eq c b'/' || nat_eq c b'.' || nat_eq c b'-'

unfoldable pub replace_separators : String → String
replace_separators [] = []
replace_separators (c ∷ s) = (if is_separator (code c) then "_" else c) ∷ replace_separators s

unfoldable pub prom_metric_name : String → String
prom_metric_name metric_type = append metric_name_prefix (replace_separators metric_type)

-- A character that Prometheus allows in a metric name after the first.
unfoldable pub is_name_char : ℕ → Bool
is_name_char c =
    within b'a' b'z' c || within b'A' b'Z' c || within b'0' b'9' c || nat_eq c b'_' || nat_eq c b':'

abbrev pub AllChars : (ℕ → Bool) → String → Type 0
AllChars p [] = Unit
AllChars p (c ∷ s) = (p (code c) ≡ true) × AllChars p s

-- [a-zA-Z_:][a-zA-Z0-9_:]*
abbrev pub IsMetricName : String → Type 0
IsMetricName [] = ⊥
IsMetricName (c ∷ s) =
    (is_name_char (code c) ≡ true) × (within b'0' b'9' (code c) ≡ false) × AllChars is_name_char s

replaced_char :
    (c : Char)
    → is_name_char (code (if is_separator (code c) then "_" else c))
      ≡ (is_name_char (code c) || is_separator (code c))
replaced_char c = elim (Bool-cases (is_separator (code c))) [
  | inl e ↦ rw e (unfold is_name_char in ground arith)
  | inr e ↦ rw e (ground arith)
]

replace_separators_iff :
    (s : String)
    → AllChars is_name_char (replace_separators s)
      ↔ AllChars (λ c. is_name_char c || is_separator c) s
unfolding replace_separators
replace_separators_iff [] = (λ _. tt, λ _. tt)
replace_separators_iff (c ∷ s) = (
  λ (here, rest). (rw (← replaced_char c) here, (replace_separators_iff s).0 rest),
  λ (here, rest). (rw (replaced_char c) here, (replace_separators_iff s).1 rest),
)

prom_metric_name-prefix :
    (t : String) → prom_metric_name t ≡ "g" ∷ "c" ∷ "p" ∷ "_" ∷ replace_separators t
unfolding prom_metric_name
prom_metric_name-prefix t =
    cons-append "g" "cp_" _
    ∙ ap (◌∷◌ "g") (
        cons-append "c" "p_" _
        ∙ ap (◌∷◌ "c") (
            cons-append "p" "_" _
            ∙ ap (◌∷◌ "p") (cons-append "_" "" _ ∙ ap (◌∷◌ "_") (nil-append _))))

-- The exported name is a valid Prometheus metric name exactly when the metric type is made of
-- letters, digits, '_', ':' and the three separators.
pub prom_metric_name_valid_iff :
    (metric_type : String)
    → IsMetricName (prom_metric_name metric_type)
      ↔ AllChars (λ c. is_name_char c || is_separator c) metric_type
prom_metric_name_valid_iff metric_type = rw (prom_metric_name-prefix metric_type) (
  λ h. (replace_separators_iff metric_type).0 (h.2.1.1.1),
  λ h.
      unfold is_name_char in
      (refl, refl, (refl, (refl, (refl, (replace_separators_iff metric_type).1 h)))),
)
