-- ===== src/Client/Queue.antt =====
-- The work queue of notifications and the time stamp of the agent's first run
-- (`pkg/redis/client.go`). A reading of the clock is an argument, `now`.
pub mod Delivery
pub mod Creation
pub mod Safe
use porter_agent.Base.{ℤ, Bool, false, pos, List, [], ◌∷◌, none, ◌==◌, if◌then◌else◌, negsuc}
use porter_agent.Text.{Text, codes}
use porter_agent.Text.Decimal.{format_int}
use porter_agent.Result.{no_pending_item, fail, int_of}
use porter_agent.Redis.{Redis}
use porter_agent.Redis.Keyspace.{Scored}
use porter_agent.Redis.Action.{Action, pure, raise, crash, call, lift, ◌>>=◌, ◌>>◌}
use porter_agent.Client.Keys.{pending_key, creation_key}

abbrev is_zero : ℤ → Bool
is_zero (pos n) = n == 0
is_zero (negsuc n) = false

module _ (redis : Redis) where
  open redis use {World}

  unfoldable pub append_to_notify_work_queue : ℤ → Text → Action World (Unit {0})
  append_to_notify_work_queue now packed = call (redis.zadd pending_key now packed)

  -- value[0]; its member is always a string in this client library.
  first_item : List Scored → Action World (Text × ℤ)
  first_item [] = crash
  first_item (a ∷ l) = pure (a.member, a.score)

  unfoldable pub get_item_from_pending_queue : Action World (Text × ℤ)
  unfolding first_item
  get_item_from_pending_queue = do
    count ← call (redis.exists pending_key)
    if count == 0
        then raise no_pending_item
        else do value ← call (redis.zpopmin pending_key); first_item value

  unfoldable pub requeue_item_with_score : Text → ℤ → Action World (Unit {0})
  requeue_item_with_score packed score = call (redis.zadd pending_key score packed)

  unfoldable pub is_first_run : Action World Bool
  is_first_run = do exists ← call (redis.exists creation_key); pure (exists == 0)

  unfoldable pub set_agent_creation_timestamp : ℤ → Action World (Unit {0})
  unfolding is_first_run
  set_agent_creation_timestamp now = do
    first_run ← is_first_run
    if first_run
        then call (redis.set creation_key (format_int now) none)
        else raise (fail (codes "agent timestamp already exists in Redis"))

  read_timestamp : Action World ℤ
  read_timestamp = do value ← call (redis.get creation_key); lift (int_of value)

  -- `cached` is the global `agentCreationTimestamp`, whose new value is the result of a run without
  -- an error; it is left alone otherwise.
  unfoldable pub get_agent_creation_timestamp : ℤ → ℤ → Action World ℤ
  unfolding is_first_run set_agent_creation_timestamp read_timestamp
  get_agent_creation_timestamp now cached =
      if is_zero cached
      then (do
        first_run ← is_first_run
        if first_run then (do set_agent_creation_timestamp now; read_timestamp) else read_timestamp)
      else pure cached
