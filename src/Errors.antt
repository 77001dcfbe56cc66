-- ===== src/Errors.antt =====
-- Go's error values, as the program makes, wraps and inspects them (used by internal/collector,
-- internal/gmp and internal/handler).
use gcp_metrics_exporter.Common.{
  ℕ, ◌≡◌, ◌⊎◌, inl, inr, refl, String, Bool, true, false, ◌||◌, Option, none, some,
}

-- The error values that the program compares by identity.
pub data Sentinel : Type 0 where
  max_series_exceeded : Sentinel
  invalid_aggregation : Sentinel
  deadline_exceeded : Sentinel
  canceled : Sentinel
  iterator_done : Sentinel
  server_closed : Sentinel

-- `wrap before e after` is `fmt.Errorf` with the text before and after its one `%w`; `join a b` is an
-- error whose `Unwrap` gives more than one, as of `errors.Join` or two `%w`, or whose own `Is` answers for
-- another besides; `foreign n` is an error made by a package that the program imports, and wraps nothing
-- the program names.
pub data Error : Type 0 where
  sentinel : Sentinel → Error
  api_error : ℕ → String → Error
  text : String → Error
  foreign : ℕ → Error
  wrap : String → Error → String → Error
  join : Error → Error → Error

pub data Result {ℓ} (A : Type ℓ) : Type ℓ where
  ok : A → Result A
  err : Error → Result A

infixl 5 ◌>>=◌
abbrev pub ◌>>=◌ {ℓ κ} : {A : Type ℓ} {B : Type κ} → Result A → (A → Result B) → Result B
ok a >>= f = f a
err e >>= f = err e

-- `fmt.Errorf("text: %w", err)` on the error path of a call.
abbrev pub annotate {ℓ} : {A : Type ℓ} → String → Result A → Result A
annotate before (ok a) = ok a
annotate before (err e) = err (wrap before e "")

unfoldable pub Sentinel-discrete : Discrete Sentinel
Sentinel-discrete = hlevel

-- `errors.Is(err, target)`: the error or one of its tree is the target.
unfoldable pub is : Error → Sentinel → Bool
unfolding Sentinel-discrete
is (sentinel s) target = elim (Sentinel-discrete s target) [ yes _ ↦ true | no _ ↦ false ]
is (wrap _ e _) target = is e target
is (join a b) target = is a target || is b target
is (api_error _ _) target = false
is (text _) target = false
is (foreign _) target = false

-- `first || second` of two searches of a tree.
abbrev pub first_of {ℓ} : {A : Type ℓ} → Option A → Option A → Option A
first_of (some a) _ = some a
first_of none later = later

-- `errors.As(err, &apiErr)`: the status code of the first `*gmp.APIError` of the tree, depth first.
unfoldable pub as_api_error : Error → Option ℕ
as_api_error (api_error code _) = some code
as_api_error (wrap _ e _) = as_api_error e
as_api_error (join a b) = first_of (as_api_error a) (as_api_error b)
as_api_error (sentinel _) = none
as_api_error (text _) = none
as_api_error (foreign _) = none

pub Result-cases {ℓ} :
    {A : Type ℓ} (r : Result A) → ((a : A) × (r ≡ ok a)) ⊎ ((e : Error) × (r ≡ err e))
Result-cases (ok a) = inl (a, refl)
Result-cases (err e) = inr (e, refl)
