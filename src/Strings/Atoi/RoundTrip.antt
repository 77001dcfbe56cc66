-- ===== src/Strings/Atoi/RoundTrip.antt =====
-- strconv.Atoi on the texts that strconv.FormatInt writes.
use Prim.Native.Char.{code}
use Prim.Native.String.{[], ◌∷◌}
use gcp_metrics_exporter.Common.{
  ℕ, zero, suc, ◌+◌, ◌/◌, ◌%◌, ◌^◌, ◌≤◌, ◌<◌, ◌≡◌, refl, ◌∙◌, String, true, false, some, inl, inr,
  Bool-cases, ltb, ltb→lt, lt→ltb, nat_eq, leb, arith,
}
use gcp_metrics_exporter.Common.Int.{ℤ, pos, negsuc}
use gcp_metrics_exporter.Strings.{digit, digits_from, format_int}
use gcp_metrics_exporter.Strings.Atoi.{scan, scan_digits, max_int, atoi}

-- The range of an int64.
abbrev pub IsInt : ℤ → Type 0
IsInt (pos n) = n ≤ max_int
IsInt (negsuc n) = n ≤ max_int

code-digit : (k : ℕ) → k < 10 → code (digit k) ≡ b'0' + k
code-digit zero h = refl
code-digit (suc zero) h = refl
code-digit (suc (suc zero)) h = refl
code-digit (suc (suc (suc zero))) h = refl
code-digit (suc (suc (suc (suc zero)))) h = refl
code-digit (suc (suc (suc (suc (suc zero))))) h = refl
code-digit (suc (suc (suc (suc (suc (suc zero)))))) h = refl
code-digit (suc (suc (suc (suc (suc (suc (suc zero))))))) h = refl
code-digit (suc (suc (suc (suc (suc (suc (suc (suc zero)))))))) h = refl
code-digit (suc (suc (suc (suc (suc (suc (suc (suc (suc zero))))))))) h = refl
code-digit (suc (suc (suc (suc (suc (suc (suc (suc (suc (suc k)))))))))) h = absurd (omega arith)

scan-digit : (n : ℕ) (s : String) → scan (digit (n % 10) ∷ s) (n / 10) ≡ scan s n
unfolding scan
scan-digit n s = let c = code-digit (n % 10) (omega arith) in ground arith

scan-last_digit : (n : ℕ) (s : String) → n < 10 → scan (digit (n % 10) ∷ s) 0 ≡ scan s n
scan-last_digit n s h = let none_left : n / 10 ≡ 0 = omega arith in rw none_left at (scan-digit n s)

scan-digits_from :
    (fuel n : ℕ) (s : String) → n < 10 ^ suc fuel → scan (digits_from (suc fuel) n s) 0 ≡ scan s n
unfolding digits_from
scan-digits_from zero n s h =
    let small : n < 10 = ground arith in rw (lt→ltb n 10 small) (scan-last_digit n s small)
scan-digits_from (suc k) n s h = elim (Bool-cases (ltb n 10)) [
  | inl small ↦ rw small (scan-last_digit n s (ltb→lt n 10 small))
  | inr large ↦
      let fits : n / 10 < 10 ^ suc k = ground arith in
      rw large (scan-digits_from k (n / 10) (digit (n % 10) ∷ s) fits ∙ scan-digit n s)
]

digits_from-cons :
    (fuel n : ℕ) (s : String)
    → (k : ℕ) × ((k < 10) × ((rest : String) × (digits_from (suc fuel) n s ≡ digit k ∷ rest)))
unfolding digits_from
digits_from-cons zero n s = (n % 10, (omega arith, (s, ground arith)))
digits_from-cons (suc fuel) n s = elim (Bool-cases (ltb n 10)) [
  | inl small ↦ (n % 10, (omega arith, (s, rw small refl)))
  | inr large ↦ rw large (digits_from-cons fuel (n / 10) (digit (n % 10) ∷ s))
]

scan_digits-print : (n : ℕ) → n < 10 ^ 20 → scan_digits (digits_from 20 n []) ≡ some n
unfolding scan_digits scan
scan_digits-print n h =
    let (k, (small, (rest, e))) = digits_from-cons 19 n [] in
    let read = scan-digits_from 19 n [] h in rw e (rw e at read)

format_int-pos : (n : ℕ) → format_int (pos n) ≡ digits_from 20 n []
unfolding format_int
format_int-pos n = refl

format_int-negsuc : (n : ℕ) → format_int (negsuc n) ≡ "-" ∷ digits_from 20 (suc n) []
unfolding format_int
format_int-negsuc n = refl

atoi-digit :
    (k n : ℕ) (rest : String)
    → k < 10
    → scan_digits (digit k ∷ rest) ≡ some n
    → n ≤ max_int
    → atoi (digit k ∷ rest) ≡ some (pos n)
unfolding atoi
atoi-digit k n rest small read fits =
    let c = code-digit k small in
    let not_minus : nat_eq (code (digit k)) b'-' ≡ false = ground arith in
    let not_plus : nat_eq (code (digit k)) b'+' ≡ false = ground arith in
    let fitting : leb n max_int ≡ true = ground arith in
    rw (not_minus, not_plus, read, fitting) refl

atoi_minus :
    (n : ℕ) (s : String)
    → scan_digits s ≡ some (suc n)
    → n ≤ max_int
    → atoi ("-" ∷ s) ≡ some (negsuc n)
unfolding atoi
atoi_minus n s read fits =
    let fitting : leb (suc n) (suc max_int) ≡ true = ground arith in
    rw (read, fitting) (ground arith)

-- Every int64 is read back from its decimal print.
pub atoi-format_int : (n : ℤ) → IsInt n → atoi (format_int n) ≡ some n
atoi-format_int (pos n) h =
    let (k, (small, (rest, e))) = digits_from-cons 19 n [] in
    let read = scan_digits-print n (omega arith) in
    rw (format_int-pos n, e) (atoi-digit k n rest small (rw e at read) h)
atoi-format_int (negsuc n) h =
    rw (format_int-negsuc n) (atoi_minus n _ (scan_digits-print (suc n) (omega arith)) h)
