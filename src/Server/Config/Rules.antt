-- ===== src/Server/Config/Rules.antt =====
-- The rules of the environment variables, written down apart from loadConfig (cmd/server/main.go).
use Prim.Native.String.{◌++◌ as append}
use text.Mathlib.TextEquality.{eq_iff}
use gcp_metrics_exporter.Common.{
  ◌≡◌, ◌≢◌, ◌⊎◌, inl, inr, String, Bool, true, false, ◌||◌, some, List, [], ◌∷◌, All, Bool-cases,
  ◌==◌, arith,
}
use gcp_metrics_exporter.Common.Int.{ℤ, pos, ◌<ℤ◌, ◌≤ℤ◌}
use gcp_metrics_exporter.Errors.{Error, Result, ok, err}
use gcp_metrics_exporter.Strings.Atoi.{atoi}
use gcp_metrics_exporter.Api.Sdk.{GoLib}
use gcp_metrics_exporter.Server.Config.{Env, invalid}

abbrev pub IsOneOf : String → List String → Type 0
IsOneOf x [] = ⊥
IsOneOf x (w ∷ ws) = (x ≡ w) ⊎ IsOneOf x ws

unfoldable pub one_of : String → List String → Bool
one_of x [] = false
one_of x (w ∷ ws) = x == w || one_of x ws

pub one_of-true : (x : String) (ws : List String) → one_of x ws ≡ true → IsOneOf x ws
unfolding one_of
one_of-true x [] h = absurd (ground arith)
one_of-true x (w ∷ ws) h = elim (Bool-cases (x == w)) [
  | inl e ↦ inl ((eq_iff x w).0 e)
  | inr n ↦ inr (one_of-true x ws (rw n at h))
]

pub one_of-false : (x : String) (ws : List String) → one_of x ws ≡ false → ¬ IsOneOf x ws
unfolding one_of
one_of-false x [] h r = r
one_of-false x (w ∷ ws) h (inl e) = let t = (eq_iff x w).1 e in absurd (ground arith)
one_of-false x (w ∷ ws) h (inr r) = one_of-false x ws (ground arith) r

-- The kinds of variables.
pub data Rule : Type 0 where
  port : Rule
  word : List String → Rule
  duration : Rule
  count : Rule

abbrev listed : List String → String
listed [] = ""
listed (w ∷ []) = w
listed (w ∷ ws) = append w (append ", " (listed ws))

abbrev pub describe : Rule → String
describe port = "an integer in 1..65535"
describe (word ws) = append "one of " (listed ws)
describe duration = "a positive Go duration"
describe count = "a positive integer"

-- The variables with a rule, in the order in which they are read.
abbrev pub variables : List (String × Rule)
variables =
    ("PORT", port)
    ∷ (("LOG_LEVEL", word ("debug" ∷ ("info" ∷ ("warn" ∷ ("error" ∷ [])))))
        ∷ (("LOG_FORMAT", word ("json" ∷ ("text" ∷ [])))
            ∷ (("SCRAPE_TIMEOUT", duration)
                ∷ (("MAX_CONCURRENT_SCRAPES", count)
                    ∷ (("MAX_SERIES_PER_REQUEST", count) ∷ (("SHUTDOWN_GRACE", duration) ∷ []))))))

abbrev pub ValueOf : Rule → Type 0
ValueOf (word _) = String
ValueOf _ = ℤ

module _ (lib : GoLib) (getenv : Env) where
  -- The text can be read by the rule, and this is its value.
  abbrev pub Reads : (r : Rule) → String → ValueOf r → Type 0
  Reads port v n = (atoi v ≡ some n) × ((pos 1 ≤ℤ n) × (n ≤ℤ pos 65535))
  Reads (word ws) v w = (w ≡ lib.to_lower v) × IsOneOf w ws
  Reads duration v d = (lib.parse_duration v ≡ some d) × (pos 0 <ℤ d)
  Reads count v n = (atoi v ≡ some n) × (pos 0 <ℤ n)

  -- The variable is unset or empty, or its text can be read.
  abbrev pub IsSound : String × Rule → Type 0
  IsSound v = (getenv (v.0) ≡ "") ⊎ ((a : ValueOf (v.1)) × Reads (v.1) (getenv (v.0)) a)

  -- The value of a variable: its default when it is unset or empty.
  abbrev pub Stands : (r : Rule) → String → ValueOf r → ValueOf r → Type 0
  Stands r name fallback a =
      ((getenv name ≡ "") × (a ≡ fallback)) ⊎ ((getenv name ≢ "") × Reads r (getenv name) a)

  -- The error names the first variable that cannot be read, its text and its rule.
  pub data Blames : List (String × Rule) → Error → Type 0 where
    here :
        (v : String × Rule) {later : List (String × Rule)} {e : Error}
        → ¬ IsSound v
        → e ≡ invalid lib (v.0) (describe (v.1)) (getenv (v.0))
        → Blames (v ∷ later) e
    there :
        (v : String × Rule) {later : List (String × Rule)} {e : Error}
        → IsSound v
        → Blames later e
        → Blames (v ∷ later) e

  pub data Loading {A : Type 0} (vs : List (String × Rule)) (Q : A → Type 0) (r : Result A)
      : Type 0 where
    accepts : All IsSound vs → (a : A) → r ≡ ok a → Q a → Loading vs Q r
    refuses : (e : Error) → Blames vs e → r ≡ err e → Loading vs Q r
