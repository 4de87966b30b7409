-- ===== src/Controller/Outcome.antt =====
-- What a call of the controller returns, and the readings of the clock in it
-- (`controllers/pod_controller.go`).
pub mod Safe
use porter_agent.Redis.Action.{◌>>=◌, Attempt, Action, error, attempt, done, pure}
use porter_agent.Base.{Option, none, some, ℤ, ◌||◌, ◌&&◌, Bool, false, ℕ, true, not, ltb_ℤ, ltb}
use porter_agent.Result.{Error}
use porter_agent.Text.{Text}

-- ctrl.Result and the error.
pub record Outcome : Type 0 where
  pub requeue : Bool
  pub failed : Option Error

abbrev pub finished : Outcome
finished = record { requeue = false; failed = none }

abbrev pub retry : Error → Outcome
retry e = record { requeue = true; failed = some e }

-- A reading of the clock: the seconds, and the nanoseconds that have passed of the next one.
pub record Reading : Type 0 where
  pub seconds : ℤ
  pub nanoseconds : ℕ

abbrev same_second : ℤ → ℤ → Bool
same_second a b = not (ltb_ℤ a b || ltb_ℤ b a)

unfoldable pub is_after : Reading → ℤ → Bool
is_after now t = ltb_ℤ t now.seconds || (same_second t now.seconds && ltb 0 now.nanoseconds)

-- The readings of the clock in one call, in the order in which they are made: `logged` has one for the
-- logs of each container.
pub record Readings : Type 0 where
  pub first_run : ℤ
  pub checked : Reading
  pub resolved : ℤ
  pub created : ℤ
  pub observed : ℤ
  pub logged : Text → ℤ
  pub scored : ℤ
  pub announced : ℤ

-- if err != nil { return ctrl.Result{Requeue: true}, err }
module _ {W A : Type 0} where
  abbrev pub or_retry_on : Attempt A → (A → Action W Outcome) → Action W Outcome
  or_retry_on (done a) f = f a
  or_retry_on (error e) f = pure (retry e)

  unfoldable pub or_retry : Action W A → (A → Action W Outcome) → Action W Outcome
  or_retry m f = attempt m >>= λ r. or_retry_on r f
