-- ===== src/Api/Time.antt =====
-- time.Time and time.Duration. A `Time` counts nanoseconds from Go's zero time (1 January of
-- year 1, UTC), from which `Truncate` counts too; a `Duration` is a number of nanoseconds.
use native.Mathlib.Nat.{div-add-mod'}
use gcp_metrics_exporter.Common.{
  ℕ, suc, ◌-◌, ◌/◌, ◌%◌, ◌*◌, ◌<◌, ◌≡◌, false, leb, if◌then◌else◌, arith,
}
use gcp_metrics_exporter.Common.Int.{
  ℤ, pos, negsuc, pos_part, sub_ℕ, ◌+ℤ◌, ◌-ℤ◌, ◌*ℤ◌, ◌≤ℤ◌, ◌<ℤ◌, is_nonpos, div_floor, mod_floor,
  mod_floor-lt, int_laws,
}

abbrev pub Time : Type 0
Time = ℤ

abbrev pub Duration : Type 0
Duration = ℤ

abbrev pub second : ℕ
second = 1_000_000_000

abbrev pub seconds : ℕ → Duration
seconds n = pos (n * second)

abbrev pub minutes : ℕ → Duration
minutes n = pos (n * 60 * second)

-- Seconds from Go's zero time to 1 January 1970.
abbrev pub unix_epoch : ℕ
unix_epoch = 62_135_596_800

-- `t.Truncate(d)`: t is left alone when d <= 0.
unfoldable pub truncate : Time → Duration → Time
truncate t d = if is_nonpos d then t else (t -ℤ pos (mod_floor t (pos_part d)))

-- `t.Unix()` and `t.UnixMilli()` round down.
unfoldable pub unix : Time → ℤ
unfolding ◌-ℤ◌ div_floor
unix t = div_floor (t -ℤ pos (unix_epoch * second)) second

unfoldable pub unix_milli : Time → ℤ
unfolding ◌-ℤ◌ div_floor
unix_milli t = div_floor (t -ℤ pos (unix_epoch * second)) 1_000_000

-- `time.Unix(s, 0)`
unfoldable pub of_unix : ℤ → Time
unfolding ◌+ℤ◌ ◌*ℤ◌
of_unix s = pos (unix_epoch * second) +ℤ s *ℤ pos second

-- `d.Milliseconds()` drops the fraction, towards zero.
unfoldable pub milliseconds : Duration → ℤ
milliseconds (pos n) = pos (n / 1_000_000)
milliseconds (negsuc n) = sub_ℕ 0 (suc n / 1_000_000)

-- A truncated moment lies less than d before the moment.
pub truncate_bounds :
    (t : Time) (d : Duration) → pos 0 <ℤ d → (truncate t d ≤ℤ t) × (t <ℤ truncate t d +ℤ d)
unfolding truncate
truncate_bounds t (pos d) h =
    let positive : leb d 0 ≡ false = ground arith in
    let small : mod_floor t d < d = mod_floor-lt t d (omega arith) in
    rw positive (omega int_laws, omega int_laws)
truncate_bounds t (negsuc d) h = absurd (omega arith)

-- With no offset from Go's zero time but a whole number of steps of d.
abbrev pub IsMultiple : Time → Duration → Type 0
IsMultiple t d = (k : ℤ) × (t ≡ k *ℤ d)

multiple_of_pos : (n d : ℕ) → pos n -ℤ pos (n % d) ≡ pos (n / d) *ℤ pos d
unfolding ◌-ℤ◌ ◌*ℤ◌
multiple_of_pos n d = let split = div-add-mod' n d in ground (arith, split)

multiple_of_negsuc : (n d : ℕ) → 0 < d → negsuc n -ℤ pos (d - 1 - n % d) ≡ negsuc (n / d) *ℤ pos d
unfolding ◌-ℤ◌ ◌*ℤ◌
multiple_of_negsuc n d h =
    let split = div-add-mod' n d in let low : n % d < d = grind arith in ground arith

pub truncate-IsMultiple : (t : Time) (d : Duration) → pos 0 <ℤ d → IsMultiple (truncate t d) d
unfolding truncate mod_floor
truncate-IsMultiple (pos n) (pos d) h =
    let positive : leb d 0 ≡ false = ground arith in
    (pos (n / d), rw positive (multiple_of_pos n d))
truncate-IsMultiple (negsuc n) (pos d) h =
    let positive : leb d 0 ≡ false = ground arith in
    (negsuc (n / d), rw positive (multiple_of_negsuc n d (omega arith)))
truncate-IsMultiple t (negsuc d) h = absurd (omega arith)
