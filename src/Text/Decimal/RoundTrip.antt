-- ===== src/Text/Decimal/RoundTrip.antt =====
-- Every `int64` is read back from its decimal text, and the text is free of other bytes.
use porter_agent.Base.{
  ◌∙◌, ap, ℕ, zero, suc, ◌+◌, ◌/◌, ◌%◌, ◌≤◌, ◌<◌, ◌≡◌, ◌≢◌, [], ◌∷◌, arith, All, ℤ, false, true,
  pos, pos, refl, negsuc, negsuc,
}
use porter_agent.Text.{Text, colon}
use porter_agent.Text.Split.{Lacks}
use porter_agent.Text.Decimal.{
  digits, scan, uint64_mod, format_uint, parse_int, format_int, parse_uint, value, signed, IsInt64,
  int64_limit,
}

-- Reading the last digit of `n` behind the digits before it gives `n`.
scan_last :
    (n : ℕ) (out : Text) → n < uint64_mod → scan ((b'0' + n % 10) ∷ out) (n / 10) ≡ scan out n
unfolding scan
scan_last n out fits = ground arith

scan-digits :
    (rounds n : ℕ) (out : Text)
    → n < rounds
    → n < uint64_mod
    → scan (digits rounds n out) 0 ≡ scan out n
unfolding digits
scan-digits zero n out enough fits = absurd (omega arith)
scan-digits (suc rounds) n out enough fits =
    ground (arith, scan_last n out fits, scan-digits rounds (n / 10) ((b'0' + n % 10) ∷ out))

abbrev IsDigit : ℕ → Type 0
IsDigit c = (b'0' ≤ c) × (c ≤ b'9')

All-digits : (rounds n : ℕ) (out : Text) → All IsDigit out → All IsDigit (digits rounds n out)
unfolding digits
All-digits zero n out h = h
All-digits (suc rounds) n out h = ground (arith, All-digits rounds (n / 10) ((b'0' + n % 10) ∷ out))

digits-ne-nil : (rounds n : ℕ) (out : Text) → out ≢ [] → digits rounds n out ≢ []
unfolding digits
digits-ne-nil zero n out h = h
digits-ne-nil (suc rounds) n out h =
    ground (arith, digits-ne-nil rounds (n / 10) ((b'0' + n % 10) ∷ out))

-- A decimal text: one or more digits.
IsDigits : Text → Type 0
IsDigits s = (s ≢ []) × All IsDigit s

format_uint-IsDigits : (n : ℕ) → IsDigits (format_uint n)
unfolding format_uint IsDigits
format_uint-IsDigits n =
    (ground (arith, digits-ne-nil n (n / 10) ((b'0' + n % 10) ∷ [])), All-digits (suc n) n [] tt)

-- A digit is no sign, so the number is read without one.
parse_int-digits : (s : Text) → IsDigits s → parse_int s ≡ signed false (scan s 0)
unfolding IsDigits parse_int parse_uint
parse_int-digits [] h = absurd (h.0 refl)
parse_int-digits (c ∷ s) h = ground arith

parse_int-minus : (s : Text) → IsDigits s → parse_int (b'-' ∷ s) ≡ signed true (scan s 0)
unfolding IsDigits parse_int parse_uint
parse_int-minus [] h = absurd (h.0 refl)
parse_int-minus (c ∷ s) h = refl

scan-format_uint : (n : ℕ) → n < uint64_mod → scan (format_uint n) 0 ≡ value n
unfolding format_uint
scan-format_uint n fits = scan-digits (suc n) n [] (omega arith) fits ∙ unfold scan in refl

signed_pos : (n : ℕ) → suc n ≤ int64_limit → signed false (value n) ≡ value (pos n)
signed_pos zero fits = refl
signed_pos (suc n) fits = ground arith

-- Every `int64` is read back from its decimal text.
pub parse_int-format_int : (n : ℤ) → IsInt64 n → parse_int (format_int n) ≡ value n
unfolding format_int
parse_int-format_int (pos n) fits =
    parse_int-digits (format_uint n) (format_uint-IsDigits n)
    ∙ ap (signed false) (scan-format_uint n (omega arith))
    ∙ signed_pos n fits
parse_int-format_int (negsuc n) fits =
    parse_int-minus (format_uint (suc n)) (format_uint-IsDigits (suc n))
    ∙ ap (signed true) (scan-format_uint (suc n) (omega arith))
    ∙ ground arith

digits_lack_colon : (s : Text) → All IsDigit s → Lacks colon s
digits_lack_colon [] h = tt
digits_lack_colon (c ∷ s) h = (omega arith, digits_lack_colon s h.1)

-- The text of a number holds no colon.
pub format_int-Lacks : (n : ℤ) → Lacks colon (format_int n)
unfolding format_int IsDigits
format_int-Lacks (pos n) = digits_lack_colon (format_uint n) (format_uint-IsDigits n).1
format_int-Lacks (negsuc n) =
    (omega arith, digits_lack_colon (format_uint (suc n)) (format_uint-IsDigits (suc n)).1)
