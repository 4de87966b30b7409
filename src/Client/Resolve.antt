-- ===== src/Client/Resolve.antt =====
-- Resolving incidents, and what is known of an incident (`pkg/redis/client.go`).
pub mod Lifecycle
pub mod Details
pub mod Safe
use porter_agent.Base.{
  ℤ, Bool, true, false, List, [], ◌∷◌, ◌++◌, Option, none, some, if◌then◌else◌, not,
}
use porter_agent.Text.{Text, codes}
use porter_agent.Result.{fail, wrap}
use porter_agent.Incident
use porter_agent.Incident.{new_incident_from_string}
use porter_agent.Models
use porter_agent.Models.{PodEvent, EventCodec}
use porter_agent.Redis.{Redis}
use porter_agent.Redis.Action.{Action, pure, raise, crash, call, lift, or_error, ◌>>=◌, ◌>>◌}
use porter_agent.Client.Keys.{pods_key, active_key}
use porter_agent.Client.Queue.{append_to_notify_work_queue}
use porter_agent.Client.Events.{object_of, incident_exists, get_latest_event_for_incident}

abbrev pub is_empty {ℓ} : {A : Type ℓ} → List A → Bool
is_empty [] = true
is_empty (a ∷ l) = false

abbrev pub details : Text → Incident.Incident → Bool → PodEvent → Models.Incident
details incident_id incident resolved latest = record {
  id = incident_id;
  release_name = incident.release_name;
  chart_name = latest.chart_name;
  created_at = incident.timestamp;
  updated_at = latest.timestamp;
  latest_state = if resolved then codes "RESOLVED" else codes "ONGOING";
  latest_reason = if resolved then codes "Resolved" else latest.reason;
  latest_message = if resolved then codes "This incident has been resolved" else latest.message;
}

module _ (redis : Redis) where
  open redis use {World}

  -- The last steps of both resolving methods.
  close_incident : ℤ → Text → Incident.Incident → Action World (Unit {0})
  close_incident now incident_id incident = do
    or_error (call (redis.del (active_key incident.release_name incident.namespace))) (
        wrap (codes "error trying to remove ") incident_id (codes " from active_incident. Error: "))
    or_error (append_to_notify_work_queue redis now (codes "resolved:" ++ incident_id)) (
        wrap (codes "error adding resolved incident to work queue with ID: ") incident_id
          (codes ". Error: "))

  -- If no pod is affected any more, the incident is deleted from the active ones.
  finish_pod : ℤ → Text → List Text → Action World (Unit {0})
  unfolding close_incident
  finish_pod now incident_id affected_pods =
      if is_empty affected_pods
      then (do
        or_error (call (redis.del (pods_key incident_id))) (
            wrap (codes "error trying to remove pods for resolved incident ID: ") incident_id
              (codes ". Error: "))
        incident ← object_of (new_incident_from_string incident_id)
        close_incident now incident_id incident)
      else pure tt

  unfoldable pub set_pod_resolved : ℤ → Text → Text → Action World (Unit {0})
  unfolding finish_pod incident_exists append_to_notify_work_queue
  set_pod_resolved now pod_name incident_id = do
    exists ← incident_exists redis incident_id
    if not exists
        then raise (
            fail (
              codes "trying to set pod resolved for non-existent incident with ID: "
              ++ incident_id))
        else do
          or_error (call (redis.srem (pods_key incident_id) pod_name)) (λ _. fail (
              codes "error trying to set pod resolved for pod: "
              ++ (pod_name ++ (codes " for incident ID: " ++ incident_id))))
          affected_pods ← or_error (call (redis.smembers (pods_key incident_id))) (
              wrap (codes "error trying to get members of set: ") (pods_key incident_id)
                (codes ". Error: "))
          finish_pod now incident_id affected_pods

  unfoldable pub set_job_incident_resolved : ℤ → Text → Action World (Unit {0})
  unfolding close_incident incident_exists append_to_notify_work_queue
  set_job_incident_resolved now incident_id = do
    exists ← incident_exists redis incident_id
    if not exists
        then raise (
            fail (
              codes "trying to set job incident resolved for non-existent incident with ID: "
              ++ incident_id))
        else do
          or_error (call (redis.del (pods_key incident_id))) (
              wrap (codes "error trying to remove pods for resolved job incident ID: ") incident_id
                (codes ". Error: "))
          incident ← object_of (new_incident_from_string incident_id)
          close_incident now incident_id incident

  unfoldable pub is_incident_resolved : Text → Action World Bool
  is_incident_resolved incident_id = do
    pods ←
        or_error (call (redis.smembers (pods_key incident_id))) (
          wrap (codes "error getting pod members for incident ID: ") incident_id
            (codes ". Error: "))
    pure (is_empty pods)

module _ (redis : Redis) (codec : EventCodec) where
  open redis use {World}

  -- The event behind a pointer, which may be nil.
  deref : Option PodEvent → Action World PodEvent
  deref none = crash
  deref (some event) = pure event

  unfoldable pub get_incident_details : Text → Action World Models.Incident
  unfolding incident_exists is_incident_resolved get_latest_event_for_incident deref
  get_incident_details incident_id = do
    exists ← incident_exists redis incident_id
    if not exists
        then raise
            (fail (codes "trying to get details of non-existent incident with ID: " ++ incident_id))
        else do
          incident ← or_error (lift (new_incident_from_string incident_id)) (
              wrap (codes "error getting incident object for incident ID: ") incident_id
                (codes ". Error: "))
          resolved ← or_error (is_incident_resolved redis incident_id) (
              wrap (codes "error checking if incident is resolved with incidentID: ") incident_id
                (codes ". Error: "))
          latest ← or_error (get_latest_event_for_incident redis codec incident_id) (
              wrap (codes "error fetching latest event with incidentID: ") incident_id
                (codes ". Error: "))
          event ← deref latest
          pure (details incident_id incident resolved event)
