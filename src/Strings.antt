-- ===== src/Strings.antt =====
-- The routines of Go's strings and strconv packages that the program uses. A text is a sequence of
-- Unicode scalar values: texts that are not valid UTF-8 are left out.
pub mod Atoi
pub mod Trim
use Prim.Native.Char.{Char, code}
use Prim.Native.String.{[], ◌∷◌, ◌++◌ as append}
use gcp_metrics_exporter.Common.{
  ℕ, zero, suc, ◌+◌, ◌-◌, ◌*◌, ◌/◌, ◌%◌, ◌^◌, String, Bool, true, false, ◌&&◌, ◌||◌, Option, none,
  some, ◌==◌, nat_eq, leb, ltb, if◌then◌else◌,
}
use gcp_metrics_exporter.Common.{List}
use gcp_metrics_exporter.Common.Int.{ℤ, pos, negsuc}

abbrev pub within : ℕ → ℕ → ℕ → Bool
within lo hi c = leb lo c && leb c hi

-- `unicode.IsSpace`
unfoldable pub is_space : ℕ → Bool
is_space c =
    within 9 13 c
    || nat_eq c 32
    || nat_eq c 0x85
    || nat_eq c 0xa0
    || nat_eq c 0x1680
    || within 0x2000 0x200a c
    || within 0x2028 0x2029 c
    || nat_eq c 0x202f
    || nat_eq c 0x205f
    || nat_eq c 0x3000

abbrev pub is_empty : String → Bool
is_empty [] = true
is_empty (_ ∷ _) = false

unfoldable pub trim_left : String → String
trim_left [] = []
trim_left (c ∷ s) = if is_space (code c) then trim_left s else c ∷ s

unfoldable pub trim_right : String → String
trim_right [] = []
trim_right (c ∷ s) =
    let rest = trim_right s in if is_empty rest && is_space (code c) then [] else c ∷ rest

-- `strings.TrimSpace`
unfoldable pub trim_space : String → String
unfolding trim_left trim_right
trim_space s = trim_right (trim_left s)

-- `strings.Split(s, ",")`; `cur` holds the current part
unfoldable pub split_comma_from : String → String → List String
split_comma_from cur [] = List.◌∷◌ cur List.[]
split_comma_from cur (c ∷ s) =
    let closed = List.◌∷◌ cur (split_comma_from [] s) in
    let longer = split_comma_from (append cur (c ∷ [])) s in
    if nat_eq (code c) b',' then closed else longer

unfoldable pub split_comma : String → List String
unfolding split_comma_from
split_comma s = split_comma_from [] s

-- The character of a decimal digit.
abbrev pub digit : ℕ → Char
digit zero = "0"
digit (suc zero) = "1"
digit (suc (suc zero)) = "2"
digit (suc (suc (suc zero))) = "3"
digit (suc (suc (suc (suc zero)))) = "4"
digit (suc (suc (suc (suc (suc zero))))) = "5"
digit (suc (suc (suc (suc (suc (suc zero)))))) = "6"
digit (suc (suc (suc (suc (suc (suc (suc zero))))))) = "7"
digit (suc (suc (suc (suc (suc (suc (suc (suc zero)))))))) = "8"
digit _ = "9"

-- The digits of n before `out`; the fuel bounds their number.
unfoldable pub digits_from : ℕ → ℕ → String → String
digits_from zero n out = out
digits_from (suc fuel) n out =
    let out' = digit (n % 10) ∷ out in
    let rest = digits_from fuel (n / 10) out' in if ltb n 10 then out' else rest

-- `strconv.FormatInt(n, 10)`: an int64 has at most 19 digits.
unfoldable pub format_int : ℤ → String
unfolding digits_from
format_int (pos n) = digits_from 20 n []
format_int (negsuc n) = "-" ∷ digits_from 20 (suc n) []

-- `strconv.ParseBool`
unfoldable pub parse_bool : String → Option Bool
parse_bool s =
    if s == "1" || s == "t" || s == "T" || s == "TRUE" || s == "true" || s == "True"
    then some true
    else if s == "0" || s == "f" || s == "F" || s == "FALSE" || s == "false" || s == "False"
    then some false
    else none
