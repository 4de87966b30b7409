-- ===== src/System.antt =====
-- The running agent (`main.go`): the controller, the consumer, the HTTP server and the pass over the
-- deleted pods work on one Redis server. Each of them runs one method at a time; a history is the order
-- in which the methods of all of them run.
pub mod Startup
pub mod Safe
pub mod Delivers
pub mod Recovers
mod Tests
use porter_agent.Base.{◌≡◌, ℤ, if◌then◌else◌, List, Bool, ◌∷◌, false, true}
use porter_agent.Redis.{Redis, Serves}
use porter_agent.Models.{EventCodec, ContainerEvent}
use porter_agent.Kube.{Cluster}
use porter_agent.Result.{Result, ok, ok, err, panic}
use porter_agent.Controller.Reconcile.{reconcile}
use porter_agent.Consumer.{Server, consume}
use porter_agent.Controller.Outcome.{Readings, Outcome}
use porter_agent.Text.{Text}
use porter_agent.Handlers.Routes.{answer, Request}
use porter_agent.Controller.Deleted.{deleted_pods_pass}
use mathlib.Core.List.{[]}
use porter_agent.Redis.Action.{Reply}

-- What the agent is configured with, and the order in which it visits the entries of a map.
pub record Setup (redis : Redis) : Type 0 where
  pub codec : EventCodec
  pub server : Server redis.World
  pub porter_host : Text
  pub visit : List (Text × ContainerEvent) → List (Text × ContainerEvent)

-- `cached` is the global `agentCreationTimestamp`. A panic of a goroutine ends the program; a panic of a
-- handler, which the HTTP server would catch, is counted like any other.
pub record State (redis : Redis) : Type 0 where
  pub world : redis.World
  pub cached : ℤ
  pub crashed : Bool

-- What happens next. The controller and the pass over the deleted pods each see the API server of that
-- moment. `elsewhere` is what happens to the Redis server meanwhile.
pub data Event (redis : Redis) : Type 0 where
  pod_changed :
      (cluster : Cluster redis.World) (clock : Readings) (namespace name : Text) → Event redis
  pulse : Event redis
  request : Request → Event redis
  five_minutes : (clientset : Reply (Cluster redis.World)) (now : ℤ) → Event redis
  elsewhere : (redis.World → redis.World) → Event redis

abbrev pub is_panic : {A : Type 0} → Result A → Bool
is_panic (ok a) = false
is_panic (err e) = false
is_panic panic = true

abbrev cached_after : ℤ → Result (Outcome × ℤ) → ℤ
cached_after cached (ok (outcome, now_cached)) = now_cached
cached_after cached (err e) = cached
cached_after cached panic = cached

module _ {redis : Redis} where
  -- A method that leaves the global alone.
  abbrev after : {A : Type 0} → State redis → Result A × redis.World → State redis
  after s (r, w) = record { world = w; cached = s.cached; crashed = is_panic r }

  -- The controller sets the global.
  abbrev after_reconcile : State redis → Result (Outcome × ℤ) × redis.World → State redis
  after_reconcile s (r, w) = record {
    world = w;
    cached = cached_after s.cached r;
    crashed = is_panic r;
  }

  next : Setup redis → State redis → Event redis → State redis
  unfolding reconcile consume answer deleted_pods_pass
  next setup s (pod_changed cluster clock namespace name) = after_reconcile s (
      reconcile redis setup.codec cluster setup.porter_host setup.visit clock namespace name
        s.cached s.world)
  next setup s pulse = after s (consume redis setup.codec setup.server s.world)
  next setup s (request r) = after s (answer redis setup.codec r s.world)
  next setup s (five_minutes clientset now) =
      after s (deleted_pods_pass redis clientset now s.world)
  next setup s (elsewhere f) = record s { world = f s.world }

  -- A program that has crashed does nothing more.
  unfoldable pub step : Setup redis → State redis → Event redis → State redis
  unfolding next
  step setup s event = if s.crashed then s else next setup s event

  pub run : Setup redis → State redis → List (Event redis) → State redis
  unfolding step
  run setup s [] = s
  run setup s (event ∷ events) = run setup (step setup s event) events
