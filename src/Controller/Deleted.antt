-- ===== src/Controller/Deleted.antt =====
-- ProcessDeletedPods (`controllers/process_deleted_pods.go`): one pass over the active incidents. Each
-- reading of the clock is `now`.
pub mod Safe
pub mod Passes
pub mod Closes
use porter_agent.Redis.Action.{
  ◌>>=◌, ◌>>◌, Attempt, Action, pure, error, done, attempt, Reply, failed, reply,
}
use porter_agent.Redis.{Redis}
use porter_agent.Kube.{Cluster, Lookup, Pod, found, failure, not_found}
use porter_agent.Base.{ℤ, List, ◌∷◌}
use porter_agent.Text.{Text}
use porter_agent.Client.Events.{object_of}
use porter_agent.Client.Resolve.{set_pod_resolved}
use porter_agent.Incident.{new_incident_from_string}
use porter_agent.Client.Listing.{get_pods_for_incident, get_all_active_incidents}
use mathlib.Core.List.{[]}

module _ (redis : Redis) (cluster : Cluster redis.World) (now : ℤ) where
  open redis use {World}

  -- The error of the resolving is dropped.
  pub check_pod : Text → Text → Lookup Pod → Action World (Unit {0})
  check_pod id pod (found instance) = pure tt
  check_pod id pod (failure e) = pure tt
  check_pod id pod not_found = do attempt (set_pod_resolved redis now pod id); pure tt

  pub check_pods : Text → List Text → Action World (Unit {0})
  unfolding check_pod
  check_pods id [] = pure tt
  check_pods id (pod ∷ pods) = do
    incident ← object_of (new_incident_from_string id)
    check_pod id pod (cluster.get_pod incident.namespace pod)
    check_pods id pods

  check_incident : Text → Attempt (List Text) → Action World (Unit {0})
  unfolding check_pods
  check_incident id (error e) = pure tt
  check_incident id (done pods) = check_pods id pods

  pub check_incidents : List Text → Action World (Unit {0})
  unfolding check_incident
  check_incidents [] = pure tt
  check_incidents (id ∷ ids) = do
    pods ← attempt (get_pods_for_incident redis id)
    check_incident id pods
    check_incidents ids

  check_all : Attempt (List Text) → Action World (Unit {0})
  unfolding check_incidents
  check_all (error e) = pure tt
  check_all (done ids) = check_incidents ids

  unfoldable pub process_deleted_pods : Action World (Unit {0})
  unfolding check_all
  process_deleted_pods = do ids ← attempt (get_all_active_incidents redis); check_all ids

module _ (redis : Redis) where
  -- `clientset` is the answer to the making of the client of the API server; its error ends the pass.
  unfoldable pub deleted_pods_pass : Reply (Cluster redis.World) → ℤ → Action redis.World (Unit {0})
  unfolding process_deleted_pods
  deleted_pods_pass (failed e) now = pure tt
  deleted_pods_pass (reply clientset) now = process_deleted_pods redis clientset now
