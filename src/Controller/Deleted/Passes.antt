-- ===== src/Controller/Deleted/Passes.antt =====
-- What the pass over the deleted pods does to the records of an incident.
use porter_agent.Incident.{Incident, to_string}
use porter_agent.Base.{◌≡◌, ◌≢◌, List, [], ◌∷◌, some, All, ℤ, refl}
use porter_agent.Redis.Takes.{Takes, Takes-bind, Takes-attempt, Takes-pure}
use porter_agent.Kube.{Lookup, Cluster, Pod, found, not_found, failure}
use porter_agent.Redis.{Redis}
use porter_agent.Controller.Deleted.{check_pod, check_pods}
use porter_agent.Text.{Text}
use porter_agent.Redis.Keyspace.{Dataset, Scored, absent, as_members, as_scores, remove_member}
use porter_agent.Incident.RoundTrip.{IsWellFormed}
use porter_agent.Result.{ok}
use porter_agent.Client.Resolve.Lifecycle.{object_of-Takes, after_pod, set_pod_resolved-Takes}
use porter_agent.Client.Keys.{pods_key, pending_key}

module _ {redis : Redis} (cluster : Cluster redis.World) (now : ℤ) (inc : Incident) where
  check_pod-present :
      (pod : Text) (l : Lookup Pod) (d : Dataset)
      → l ≢ not_found
      → Takes redis (check_pod redis cluster now (to_string inc) pod l) d (ok tt) d
  unfolding check_pod
  check_pod-present pod (found instance) d h = Takes-pure tt d
  check_pod-present pod (failure e) d h = Takes-pure tt d
  check_pod-present pod not_found d h = absurd (h refl)

  -- The pass changes nothing of a well-formed incident if the API server says of none of its pods that
  -- it is not found: pods that are there, and errors, resolve nothing.
  pub check_pods-present :
      (pods : List Text) (d : Dataset)
      → IsWellFormed inc
      → All (λ pod. cluster.get_pod inc.namespace pod ≢ not_found) pods
      → Takes redis (check_pods redis cluster now (to_string inc) pods) d (ok tt) d
  unfolding check_pods
  check_pods-present [] d wf present = Takes-pure tt d
  check_pods-present (pod ∷ pods) d wf present = Takes-bind _ (object_of-Takes inc d wf) (
      Takes-bind _ (check_pod-present pod (cluster.get_pod inc.namespace pod) d present.0)
        (check_pods-present pods d wf present.1))

  -- With the server up, let the pass meet a pod of a well-formed incident that is stored, of which
  -- the API server says that it is not found, and after it only pods that are there. The pod is
  -- resolved: it is taken out of the set, and the incident is closed if it was the last one.
  pub check_pods-gone :
      (pod : Text) (rest : List Text) (d : Dataset) (pods : List Text) (queue : List Scored)
      → IsWellFormed inc
      → cluster.get_pod inc.namespace pod ≡ not_found
      → All (λ p. cluster.get_pod inc.namespace p ≢ not_found) rest
      → d.values (to_string inc) ≢ absent
      → as_members (d.values (pods_key (to_string inc))) ≡ some pods
      → as_scores (d.values pending_key) ≡ some queue
      → Takes redis
          (check_pods redis cluster now (to_string inc) (pod ∷ rest))
          d
          (ok tt)
          (after_pod now inc queue d (remove_member pod pods))
  unfolding check_pods check_pod
  check_pods-gone pod rest d pods queue wf gone present here affected waiting =
      Takes-bind _ (object_of-Takes inc d wf) (
        Takes-bind _
          (rw gone (
            Takes-bind _
              (Takes-attempt
                (set_pod_resolved-Takes now pod inc d pods queue wf here affected waiting))
              (Takes-pure tt _)))
          (check_pods-present rest _ wf present))
