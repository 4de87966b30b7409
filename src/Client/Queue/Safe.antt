-- ===== src/Client/Queue/Safe.antt =====
-- The methods of the work queue and of the time stamp in any world: they keep what each key holds,
-- and never panic.
use porter_agent.Base.{◌≡◌, ℤ, List, ◌∷◌, [], ◌==◌, none}
use porter_agent.Result.{int_of-ne-panic}
use porter_agent.Redis.{Redis}
use porter_agent.Redis.Keyspace.{Dataset, Scored}
use porter_agent.Client.Queue.{
  append_to_notify_work_queue, requeue_item_with_score, first_item, get_item_from_pending_queue,
  is_first_run, set_agent_creation_timestamp, read_timestamp, get_agent_creation_timestamp, is_zero,
}
use porter_agent.Text.{Text}
use porter_agent.Redis.Ensures.{
  Ensures, Anything, Ensures-bind, Ensures-if, Ensures-unreached, Ensures-pure, Ensures-raise,
  Ensures-lift,
}
use porter_agent.Client.Typing.{kind_of, IsSound}
use porter_agent.Client.Typing.Calls.{
  zadd-Ensures, exists-Ensures, set-Ensures, get-Ensures, zpopmin-Ensures,
}
use porter_agent.Client.Keys.{pending_key, creation_key}
use porter_agent.Client.Typing.Identifiers.{AllowsScores-pending, pending-IsScores}

first_item-Ensures :
    {redis : Redis} (l : List Scored)
    → Ensures redis IsSound (λ _. (a : Scored) × (l ≡ a ∷ [])) (first_item redis l) (λ _. Anything)
unfolding first_item
first_item-Ensures [] = Ensures-unreached λ d i p. absurd (cc p.1)
first_item-Ensures (a ∷ l) = Ensures-pure _ λ d p. tt

module _ {redis : Redis} {P : Dataset → Type 0} where
  pub append-Ensures :
      (now : ℤ) (packed : Text)
      → Ensures redis IsSound P (append_to_notify_work_queue redis now packed) (λ _. Anything)
  unfolding append_to_notify_work_queue
  append-Ensures now packed = zadd-Ensures redis pending_key now packed AllowsScores-pending

  pub requeue-Ensures :
      (packed : Text) (score : ℤ)
      → Ensures redis IsSound P (requeue_item_with_score redis packed score) (λ _. Anything)
  unfolding requeue_item_with_score
  requeue-Ensures packed score = zadd-Ensures redis pending_key score packed AllowsScores-pending

  pub get_item-Ensures : Ensures redis IsSound P (get_item_from_pending_queue redis) (λ _. Anything)
  unfolding get_item_from_pending_queue
  get_item-Ensures = Ensures-bind (exists-Ensures redis pending_key) λ count.
      Ensures-if (count == 0) (λ _. Ensures-raise _)
        λ some_item.
          Ensures-bind
            (zpopmin-Ensures redis pending_key AllowsScores-pending pending-IsScores
              λ d p. p.1 some_item)
            first_item-Ensures

  is_first_run-Ensures : Ensures redis IsSound P (is_first_run redis) (λ _. Anything)
  unfolding is_first_run
  is_first_run-Ensures =
      Ensures-bind (exists-Ensures redis creation_key) λ exists. Ensures-pure _ λ d p. tt

  set_creation-Ensures :
      (now : ℤ) → Ensures redis IsSound P (set_agent_creation_timestamp redis now) (λ _. Anything)
  unfolding set_agent_creation_timestamp kind_of
  set_creation-Ensures now = Ensures-bind is_first_run-Ensures λ first_run.
      Ensures-if first_run (λ _. set-Ensures redis creation_key _ none tt) λ _. Ensures-raise _

  read_timestamp-Ensures : Ensures redis IsSound P (read_timestamp redis) (λ _. Anything)
  unfolding read_timestamp
  read_timestamp-Ensures =
      Ensures-bind (get-Ensures redis creation_key)
        λ t. Ensures-lift _ (int_of-ne-panic t) λ d a e p. tt

module _ {redis : Redis} {P : Dataset → Type 0} where
  pub get_creation-Ensures :
      (now cached : ℤ)
      → Ensures redis IsSound P (get_agent_creation_timestamp redis now cached) (λ _. Anything)
  unfolding get_agent_creation_timestamp
  get_creation-Ensures now cached =
      Ensures-if (is_zero cached)
        (λ _. Ensures-bind is_first_run-Ensures λ first_run.
          Ensures-if first_run
            (λ _. Ensures-bind (set_creation-Ensures now) λ _. read_timestamp-Ensures)
            (λ _. read_timestamp-Ensures))
        (λ _. Ensures-pure _ λ d p. tt)
