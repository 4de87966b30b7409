-- ===== src/Redis.antt =====
-- The Redis server and its client library, which the agent calls and does not implement: an interface
-- with the documented behaviour of the commands as its laws. A world is the server with the
-- connection to it. In a world that is `up` the server answers, and for the duration of one method of
-- the agent nobody else writes and no key expires. In any other world a call may also fail, and then
-- the command may have been carried out or not.
pub mod Keyspace
pub mod Action
pub mod Commands
pub mod Laws
pub mod Takes
pub mod Ends
pub mod Ensures
pub mod Order
pub mod Memory
use porter_agent.Base.{
  ℕ, ℤ, pos, negsuc, ◌≡◌, ◌≢◌, Bool, true, false, List, [], ◌∷◌, Option, All, ◌==◌, ◌||◌, ◌&&◌,
  if◌then◌else◌, not,
}
use mathlib.Core.List.{Perm}
use porter_agent.Text.{Text, has_prefix}
use porter_agent.Result.{Error}
use Action.{Reply, Call, failed}
use Keyspace.{Dataset, Scored, absent}
use Commands

-- What may become of a command with the documented reply and dataset `f`, from the dataset `d`.
pub data Fate {A : Type 0} (d : Dataset) (f : Reply A × Dataset) (r : Reply A) (d' : Dataset)
    : Type 0 where
  served : r ≡ f.0 → d' ≡ f.1 → Fate d f r d'
  lost_request : (e : Error) → r ≡ failed e → d' ≡ d → Fate d f r d'
  lost_reply : (e : Error) → r ≡ failed e → d' ≡ f.1 → Fate d f r d'

-- The call is the command `f`.
pub record Serves {W A : Type 0} (up : W → Bool) (data_of : W → Dataset) (c : Call W A)
    (f : Call Dataset A) : Type 0 where
  pub answers :
      (w : W)
      → up w ≡ true
      → ((c w).0 ≡ (f (data_of w)).0) × (up (c w).1 ≡ true) × (data_of (c w).1 ≡ (f (data_of w)).1)
  pub fate : (w : W) → Fate (data_of w) (f (data_of w)) (c w).0 (data_of (c w).1)

-- The part of a glob pattern before its first special character.
unfoldable pub literal_prefix : Text → Text
literal_prefix [] = []
literal_prefix (c ∷ pattern) =
    let rest = literal_prefix pattern in
    if (c == b'*') || ((c == b'?') || ((c == b'[') || (c == 92))) then [] else c ∷ rest

pub record Redis : Type 1 where
  pub World : Type 0
  pub up : World → Bool
  pub data_of : World → Dataset
  pub exists : Text → Call World ℕ
  pub get : Text → Call World Text
  -- the time to live in seconds; `none` is 0, which is no expiry
  pub set : Text → Text → Option ℤ → Call World (Unit {0})
  pub del : Text → Call World (Unit {0})
  pub expire_at : Text → ℤ → Call World (Unit {0})
  pub zadd : Text → ℤ → Text → Call World (Unit {0})
  pub zpopmin : Text → Call World (List Scored)
  pub zrange : Text → ℤ → ℤ → Call World (List Text)
  -- ZRANGE with REV and WITHSCORES
  pub zrange_rev : Text → ℤ → ℤ → Call World (List Scored)
  pub sadd : Text → Text → Call World (Unit {0})
  pub srem : Text → Text → Call World (Unit {0})
  pub smembers : Text → Call World (List Text)
  pub keys : Text → Call World (List Text)
  -- the order in which SMEMBERS lists a set, which is not specified
  pub member_order : Text → List Text → List Text
  pub member_order-perm : (k : Text) (l : List Text) → Perm (member_order k l) l
  -- the keys that KEYS finds for a pattern: they are there, and begin with its literal part
  pub listing : Text → Dataset → List Text
  pub listing_sound :
      (pattern : Text) (d : Dataset)
      → All
          (λ k. (d.values k ≢ absent) × (has_prefix k (literal_prefix pattern) ≡ true))
          (listing pattern d)
  pub exists_lem : (k : Text) → Serves up data_of (exists k) (Commands.exists k)
  pub get_lem : (k : Text) → Serves up data_of (get k) (Commands.get k)
  pub set_lem :
      (k t : Text) (ttl : Option ℤ) → Serves up data_of (set k t ttl) (Commands.set k t ttl)
  pub del_lem : (k : Text) → Serves up data_of (del k) (Commands.del k)
  pub expire_at_lem :
      (k : Text) (t : ℤ) → Serves up data_of (expire_at k t) (Commands.expire_at k t)
  pub zadd_lem :
      (k : Text) (x : ℤ) (m : Text) → Serves up data_of (zadd k x m) (Commands.zadd k x m)
  pub zpopmin_lem : (k : Text) → Serves up data_of (zpopmin k) (Commands.zpopmin k)
  pub zrange_all :
      (k : Text) → Serves up data_of (zrange k (pos 0) (negsuc 0)) (Commands.zrange_all k)
  pub zrange_rev_all :
      (k : Text) → Serves up data_of (zrange_rev k (pos 0) (negsuc 0)) (Commands.zrange_rev_all k)
  pub zrange_rev_two :
      (k : Text) → Serves up data_of (zrange_rev k (pos 0) (pos 1)) (Commands.zrange_rev_two k)
  pub sadd_lem : (k m : Text) → Serves up data_of (sadd k m) (Commands.sadd k m)
  pub srem_lem : (k m : Text) → Serves up data_of (srem k m) (Commands.srem k m)
  pub smembers_lem : (k : Text) → Serves up data_of (smembers k) (Commands.smembers member_order k)
  pub keys_lem : (pattern : Text) → Serves up data_of (keys pattern) (Commands.keys listing pattern)
