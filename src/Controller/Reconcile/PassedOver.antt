-- ===== src/Controller/Reconcile/PassedOver.antt =====
-- The first steps of Reconcile for a pod without the agent's finalizer, once the creation time is known.
use porter_agent.Base.{◌≡◌, false, ℕ, suc, pos, ◌==◌, List, ℤ, arith}
use porter_agent.Redis.Takes.{Takes, Takes-pure}
use porter_agent.Kube.{Cluster, Pod}
use porter_agent.Redis.{Redis}
use porter_agent.Models.{EventCodec, ContainerEvent}
use porter_agent.Text.{Text}
use porter_agent.Controller.Outcome.{Readings}
use porter_agent.Controller.Pods.{delete_finalizer_if_exists, has_finalizer}
use porter_agent.Client.Queue.{get_agent_creation_timestamp}
use porter_agent.Redis.Keyspace.{Dataset}
use porter_agent.Result.{ok}

suc-ne-zero : (n : ℕ) → (suc n == 0) ≡ false
suc-ne-zero n = ground arith

module _ {redis : Redis} (codec : EventCodec) (cluster : Cluster redis.World) (porter_host : Text)
    (visit : List (Text × ContainerEvent) → List (Text × ContainerEvent)) (clock : Readings) where
  pub without_finalizer-Takes :
      (instance : Pod) (d : Dataset)
      → has_finalizer instance.finalizers ≡ false
      → Takes redis (delete_finalizer_if_exists cluster instance) d (ok instance) d
  unfolding delete_finalizer_if_exists
  without_finalizer-Takes instance d h = rw h (Takes-pure _ d)

  pub cached-Takes :
      (now : ℤ) (n : ℕ) (d : Dataset)
      → Takes redis (get_agent_creation_timestamp redis now (pos (suc n))) d (ok (pos (suc n))) d
  unfolding get_agent_creation_timestamp
  cached-Takes now n d = rw (suc-ne-zero n) (Takes-pure _ d)
