-- ===== src/Result.antt =====
-- Results of fallible Go code (`pkg/errors/errors.go` and the errors that `fmt.Errorf` builds). The
-- program tests errors by their text, so an error carries the text of its `Error` method.
use porter_agent.Base.{◌++◌, ℤ, ◌∷◌, ◌≡◌, ◌≢◌, Bool, if◌then◌else◌, refl}
use porter_agent.Text.{Text, codes}
use porter_agent.Text.Decimal.{Parsed, parse_int, value, syntax, out_of_range}
use mathlib.Core.Bool.{true, false}

-- The sentinel `NoPendingItemError`, which is tested by `errors.Is`, and any other error.
pub data Error : Type 0 where
  no_pending_item : Error
  fail : Text → Error

-- err.Error()
abbrev pub error_text : Error → Text
error_text no_pending_item = codes "no pending item"
error_text (fail message) = message

-- fmt.Errorf("<before>%s<after>%w", arg, err); no caller wraps the sentinel.
abbrev pub wrap : Text → Text → Text → Error → Error
wrap before arg after e = fail (before ++ (arg ++ (after ++ error_text e)))

-- A value, an error, or a run-time panic, which ends the goroutine's function.
pub data Result {ℓ} (A : Type ℓ) : Type ℓ where
  ok : A → Result A
  err : Error → Result A
  panic : Result A

infixl 5 ◌>>=◌
abbrev pub ◌>>=◌ {ℓ κ} : {A : Type ℓ} {B : Type κ} → Result A → (A → Result B) → Result B
ok a >>= f = f a
err e >>= f = err e
panic >>= f = panic

-- strconv.ParseInt(s, 10, 64) with the text of its `NumError`. The text is quoted as it is, which is
-- `strconv.Quote` for a text without quotes, backslashes and control characters.
num_error : Text → Text → Error
num_error s reason =
    fail (codes "strconv.ParseInt: parsing " ++ (b'"' ∷ (s ++ (b'"' ∷ (codes ": " ++ reason)))))

int_result : Text → Parsed ℤ → Result ℤ
int_result s (value n) = ok n
int_result s syntax = err (num_error s (codes "invalid syntax"))
int_result s out_of_range = err (num_error s (codes "value out of range"))

unfoldable pub int_of : Text → Result ℤ
unfolding int_result num_error
int_of s = int_result s (parse_int s)

-- The number behind a successful conversion.
pub int_of-value : (s : Text) (n : ℤ) → parse_int s ≡ value n → int_of s ≡ ok n
unfolding int_of
int_of-value s n h = rw h

int_result-ne-panic : (s : Text) (p : Parsed ℤ) → int_result s p ≢ panic
unfolding int_result
int_result-ne-panic s (value n) e = cc
int_result-ne-panic s syntax e = cc
int_result-ne-panic s out_of_range e = cc

-- A conversion gives a number or an error.
pub int_of-ne-panic : (s : Text) → int_of s ≢ panic
unfolding int_of
int_of-ne-panic s = int_result-ne-panic s (parse_int s)

-- Steps that do not panic, in sequence and in branches.
pub bind-ne-panic :
    {A B : Type 0} {m : Result A} {f : A → Result B}
    → m ≢ panic
    → ((a : A) → f a ≢ panic)
    → (m >>= f) ≢ panic
bind-ne-panic {m = ok a} h k q = k a q
bind-ne-panic {m = err e} h k q = cc
bind-ne-panic {m = panic} h k q = h refl

pub if-ne-panic :
    {A : Type 0} {r s : Result A} (b : Bool) → r ≢ panic → s ≢ panic → (if b then r else s) ≢ panic
if-ne-panic true h k = h
if-ne-panic false h k = k

pub ok-ne-panic : {A : Type 0} {a : A} → ok a ≢ panic
ok-ne-panic e = cc
