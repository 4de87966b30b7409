-- ===== src/Controller/Outcome/Safe.antt =====
-- A step of the controller whose error ends the call.
use porter_agent.Controller.Outcome.{or_retry, Outcome, or_retry_on, done, error}
use porter_agent.Redis.{Redis}
use porter_agent.Redis.Keyspace.{Dataset}
use porter_agent.Redis.Action.{Action, Attempt}
use porter_agent.Redis.Ensures.{
  Ensures, Anything, IfDone, Ensures-pure, Ensures-bind, Ensures-attempt,
}

pub or_retry-Ensures :
    {redis : Redis} {I P : Dataset → Type 0} {A : Type 0} {Q : A → Dataset → Type 0}
    {m : Action redis.World A} (f : A → Action redis.World Outcome)
    → Ensures redis I P m Q
    → ((a : A) → Ensures redis I (Q a) (f a) (λ _. Anything))
    → Ensures redis I P (or_retry m f) (λ _. Anything)
unfolding or_retry
or_retry-Ensures {redis} {I} {A} {Q} f h k = Ensures-bind (Ensures-attempt h) by_outcome
  where
    by_outcome : (r : Attempt A) → Ensures redis I (IfDone Q r) (or_retry_on r f) (λ _. Anything)
    by_outcome (done a) = k a
    by_outcome (error e) = Ensures-pure _ λ d p. tt
