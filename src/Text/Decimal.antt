-- ===== src/Text/Decimal.antt =====
-- Decimal numbers: `%d` of an `int64`, and `strconv.ParseInt(s, 10, 64)`.
pub mod RoundTrip
use porter_agent.Base.{
  ℕ, zero, suc, ◌+◌, ◌-◌, ◌*◌, ◌/◌, ◌%◌, ◌^◌, ◌≤◌, ◌≡◌, refl, Bool, true, false, ◌&&◌, ◌||◌, List,
  [], ◌∷◌, arith, ltb, leb, ◌==◌, if◌then◌else◌, ℤ, pos, negsuc,
}
use porter_agent.Text.{Text, codes}

-- What `ParseInt` returns: the number, `ErrSyntax` or `ErrRange`.
pub data Parsed {ℓ} (A : Type ℓ) : Type ℓ where
  value : A → Parsed A
  syntax out_of_range : Parsed A

-- The digits of `n` in front of `out`. Each round divides by ten, so `n + 1` rounds are enough.
pub digits : ℕ → ℕ → Text → Text
digits zero n out = out
digits (suc rounds) n out =
    let last = b'0' + n % 10 in
    let rest = digits rounds (n / 10) (last ∷ out) in if ltb n 10 then last ∷ out else rest

unfoldable pub format_uint : ℕ → Text
unfolding digits
format_uint n = digits (suc n) n []

-- fmt.Sprintf("%d", n)
unfoldable pub format_int : ℤ → Text
unfolding format_uint
format_int (pos n) = format_uint n
format_int (negsuc n) = b'-' ∷ format_uint (suc n)

abbrev pub uint64_mod : ℕ
uint64_mod = 2 ^ 64

-- The least number whose tenfold overflows a `uint64`.
abbrev pub cutoff : ℕ
cutoff = (uint64_mod - 1) / 10 + 1

-- The loop of `strconv.ParseUint`: the first byte that is no digit, or the first step that would
-- overflow, ends it.
pub scan : Text → ℕ → Parsed ℕ
scan [] n = value n
scan (c ∷ s) n =
    let next = (n * 10 + (c - b'0')) % uint64_mod in
    if ltb c b'0' || ltb b'9' c
    then syntax
    else if leb cutoff n
    then out_of_range
    else if ltb next (n * 10 % uint64_mod)
    then out_of_range
    else scan s next

pub parse_uint : Text → Parsed ℕ
unfolding scan
parse_uint [] = syntax
parse_uint (c ∷ s) = scan (c ∷ s) 0

abbrev pub int64_limit : ℕ
int64_limit = 2 ^ 63

abbrev pub signed : Bool → Parsed ℕ → Parsed ℤ
signed negative syntax = syntax
signed negative out_of_range = out_of_range
signed negative (value zero) = value (pos 0)
signed negative (value (suc n)) =
    if negative
    then (if ltb int64_limit (suc n) then out_of_range else value (negsuc n))
    else if leb int64_limit (suc n)
    then out_of_range
    else value (pos (suc n))

-- strconv.ParseInt(s, 10, 64)
unfoldable pub parse_int : Text → Parsed ℤ
unfolding parse_uint
parse_int [] = syntax
parse_int (c ∷ s) =
    if c == b'+'
    then signed false (parse_uint s)
    else if c == b'-'
    then signed true (parse_uint s)
    else signed false (parse_uint (c ∷ s))

abbrev pub IsInt64 : ℤ → Type 0
IsInt64 (pos n) = suc n ≤ int64_limit
IsInt64 (negsuc n) = suc n ≤ int64_limit

max_int64_text : format_int (pos 9223372036854775807) ≡ codes "9223372036854775807"
unfolding format_int
max_int64_text = refl

parse_tests :
    (parse_int (codes "-9223372036854775808") ≡ value (negsuc 9223372036854775807))
    × (parse_int (codes "9223372036854775808") ≡ out_of_range)
    × (parse_int (codes "+007") ≡ value (pos 7))
    × (parse_int (codes "12a") ≡ syntax)
    × (parse_int (codes "-") ≡ syntax)
unfolding parse_int
parse_tests = (refl, refl, refl, refl, refl)
