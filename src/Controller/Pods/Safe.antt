-- ===== src/Controller/Pods/Safe.antt =====
-- The finalizer of the agent is removed without a write to Redis.
use porter_agent.Controller.Pods.{delete_finalizer_if_exists, has_finalizer}
use porter_agent.Redis.{Redis}
use porter_agent.Redis.Keyspace.{Dataset}
use porter_agent.Kube.{Cluster, IsValid, Pod, IsPod}
use porter_agent.Redis.Ensures.{
  Ensures, Ensures-if, Ensures-bind, Anything, Ensures-or_error, Ensures-outside, Ensures-pure,
}
use porter_agent.Client.Typing.{IsSound}

pub delete_finalizer-Ensures :
    {redis : Redis} {P : Dataset → Type 0} (cluster : Cluster redis.World)
    → IsValid redis.data_of cluster
    → (instance : Pod) → IsPod instance
    → Ensures redis IsSound P (delete_finalizer_if_exists cluster instance) (λ pod d. IsPod pod)
unfolding delete_finalizer_if_exists
delete_finalizer-Ensures cluster valid instance h =
    Ensures-if (has_finalizer instance.finalizers)
      (λ _.
        Ensures-bind {Q = λ _. Anything}
          (Ensures-or_error _ (Ensures-outside _ (valid.update_pod _) λ d a p. tt))
          λ _.
            Ensures-pure _
              λ d p. record { label = h.label; namespace = h.namespace; containers = h.containers })
      (λ _. Ensures-pure _ λ d p. h)
