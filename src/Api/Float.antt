-- ===== src/Api/Float.antt =====
-- float64: the operations that the program uses, as an interface. No law is assumed.
use gcp_metrics_exporter.Common.{Option, none, some}
use gcp_metrics_exporter.Common.Int.{ℤ, pos, ◌+ℤ◌, ◌*ℤ◌}

pub record Float64 (F : Type 0) : Type 0 where
  pub zero_float : F
  pub one_float : F
  pub inf : F
  pub add : F → F → F
  pub mul : F → F → F
  pub of_int : ℤ → F

-- The integers with a value for +Inf meet the interface.
abbrev pub IntFloat : Type 0
IntFloat = Option ℤ

lift : (ℤ → ℤ → ℤ) → IntFloat → IntFloat → IntFloat
lift f (some a) (some b) = some (f a b)
lift f _ none = none
lift f none _ = none

unfoldable pub int_floats : Float64 IntFloat
unfolding lift ◌+ℤ◌ ◌*ℤ◌
int_floats = record {
  zero_float = some (pos 0);
  one_float = some (pos 1);
  inf = none;
  add = lift ◌+ℤ◌;
  mul = lift ◌*ℤ◌;
  of_int = some;
}
