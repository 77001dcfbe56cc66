-- ===== src/Strings/Atoi.antt =====
-- `strconv.Atoi`, whose error the program never looks at, where int has 64 bits (used by
-- cmd/server/main.go).
pub mod RoundTrip
use Prim.Native.Char.{Char, code}
use Prim.Native.String.{[], ◌∷◌}
use gcp_metrics_exporter.Common.{
  ℕ, suc, ◌+◌, ◌-◌, ◌*◌, ◌^◌, ◌≡◌, refl, String, Bool, Option, none, some, leb, nat_eq,
  if◌then◌else◌,
}
use gcp_metrics_exporter.Common.Int.{ℤ, pos, negsuc, sub_ℕ}
use gcp_metrics_exporter.Strings.{within}

abbrev pub is_digit : Char → Bool
is_digit c = within b'0' b'9' (code c)

-- The digits to the end of the text, after digits with the value `n`.
unfoldable pub scan : String → ℕ → Option ℕ
scan [] n = some n
scan (c ∷ s) n = let rest = scan s (n * 10 + (code c - b'0')) in if is_digit c then rest else none

-- One digit or more.
unfoldable pub scan_digits : String → Option ℕ
unfolding scan
scan_digits [] = none
scan_digits (c ∷ s) = scan (c ∷ s) 0

abbrev pub max_int : ℕ
max_int = 2 ^ 63 - 1

abbrev pub in_range : ℕ → Option ℤ
in_range n = if leb n max_int then some (pos n) else none

abbrev pub minus_in_range : ℕ → Option ℤ
minus_in_range n = if leb n (suc max_int) then some (sub_ℕ 0 n) else none

unfoldable pub atoi : String → Option ℤ
unfolding scan_digits
atoi [] = none
atoi (c ∷ s) =
    if nat_eq (code c) b'-'
    then elim (scan_digits s) [ none ↦ none | some n ↦ minus_in_range n ]
    else if nat_eq (code c) b'+'
    then elim (scan_digits s) [ none ↦ none | some n ↦ in_range n ]
    else elim (scan_digits (c ∷ s)) [ none ↦ none | some n ↦ in_range n ]

atoi_values :
    (atoi "8080" ≡ some (pos 8080))
    × ((atoi "+7" ≡ some (pos 7))
        × ((atoi "-1" ≡ some (negsuc 0))
            × ((atoi "1_000" ≡ none) × ((atoi "-" ≡ none) × (atoi "9223372036854775808" ≡ none)))))
unfolding atoi scan scan_digits
atoi_values = (refl, (refl, (refl, (refl, (refl, refl)))))
