-- ===== src/Controller/Deleted/Safe.antt =====
-- A pass over the deleted pods in any world: it keeps what each key holds, and never panics.
use porter_agent.Base.{ℤ, List, All, ◌∷◌}
use porter_agent.Redis.{Redis}
use porter_agent.Kube.{Cluster, Lookup, Pod, not_found}
use porter_agent.Controller.Deleted.{
  check_pod, check_pods, check_incident, check_incidents, check_all, process_deleted_pods, found,
  error, error, failure, done, done, deleted_pods_pass, failed, reply,
}
use porter_agent.Redis.Keyspace.{Dataset}
use porter_agent.Redis.Action.{Attempt, Reply}
use porter_agent.Text.{Text}
use porter_agent.Redis.Ensures.{
  Ensures, Anything, IfDone, Ensures-pure, Ensures-bind, Ensures-attempt, Ensures-given,
}
use porter_agent.Client.Typing.{IsIncident, IsSound}
use porter_agent.Client.Resolve.Safe.{set_pod_resolved-Ensures}
use porter_agent.Client.Events.Safe.{object_of-Ensures}
use porter_agent.Client.Listing.Safe.{get_pods-Ensures, get_all_active_incidents-Ensures}
use mathlib.Core.List.{[]}

module _ {redis : Redis} (cluster : Cluster redis.World) (now : ℤ) where
  check_pod-Ensures :
      {P : Dataset → Type 0} (id pod : Text) (answer : Lookup Pod)
      → IsIncident id
      → Ensures redis IsSound P (check_pod redis cluster now id pod answer) (λ _. Anything)
  unfolding check_pod
  check_pod-Ensures id pod (found instance) h = Ensures-pure _ λ d p. tt
  check_pod-Ensures id pod (failure e) h = Ensures-pure _ λ d p. tt
  check_pod-Ensures id pod not_found h =
      Ensures-bind (Ensures-attempt (set_pod_resolved-Ensures now pod id h))
        λ _. Ensures-pure _ λ d p. tt

  check_pods-Ensures :
      {P : Dataset → Type 0} (id : Text) (pods : List Text)
      → IsIncident id
      → Ensures redis IsSound P (check_pods redis cluster now id pods) (λ _. Anything)
  unfolding check_pods
  check_pods-Ensures id [] h = Ensures-pure _ λ d p. tt
  check_pods-Ensures id (pod ∷ pods) h = Ensures-bind (object_of-Ensures id h) λ incident.
      Ensures-bind (check_pod-Ensures id pod (cluster.get_pod incident.namespace pod) h)
        λ _. check_pods-Ensures id pods h

  check_incident-Ensures :
      {P : Dataset → Type 0} (id : Text) (pods : Attempt (List Text))
      → IsIncident id
      → Ensures redis IsSound P (check_incident redis cluster now id pods) (λ _. Anything)
  unfolding check_incident
  check_incident-Ensures id (error e) h = Ensures-pure _ λ d p. tt
  check_incident-Ensures id (done pods) h = check_pods-Ensures id pods h

  check_incidents-Ensures :
      {P : Dataset → Type 0} (ids : List Text)
      → All IsIncident ids
      → Ensures redis IsSound P (check_incidents redis cluster now ids) (λ _. Anything)
  unfolding check_incidents
  check_incidents-Ensures [] h = Ensures-pure _ λ d p. tt
  check_incidents-Ensures (id ∷ ids) (h, all) =
      Ensures-bind (Ensures-attempt (get_pods-Ensures id))
        λ pods. Ensures-bind (check_incident-Ensures id pods h) λ _. check_incidents-Ensures ids all

  check_all-Ensures :
      (ids : Attempt (List Text))
      → Ensures redis IsSound
          (IfDone (λ ids d. All IsIncident ids) ids)
          (check_all redis cluster now ids)
          (λ _. Anything)
  unfolding check_all
  check_all-Ensures (error e) = Ensures-pure _ λ d p. tt
  check_all-Ensures (done ids) = Ensures-given (λ d i p. p) λ all. check_incidents-Ensures ids all

  process-Ensures :
      {P : Dataset → Type 0}
      → Ensures redis IsSound P (process_deleted_pods redis cluster now) (λ _. Anything)
  unfolding process_deleted_pods
  process-Ensures =
      Ensures-bind (Ensures-attempt get_all_active_incidents-Ensures) λ ids. check_all-Ensures ids

pub pass-Ensures :
    {redis : Redis} {P : Dataset → Type 0} (clientset : Reply (Cluster redis.World)) (now : ℤ)
    → Ensures redis IsSound P (deleted_pods_pass redis clientset now) (λ _. Anything)
unfolding deleted_pods_pass
pass-Ensures (failed e) now = Ensures-pure _ λ d p. tt
pass-Ensures (reply clientset) now = process-Ensures clientset now
