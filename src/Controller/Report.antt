-- ===== src/Controller/Report.antt =====
-- What the controller does with a pod that has something to report (`controllers/pod_controller.go`,
-- Reconcile from line 201 on).
pub mod Safe
pub mod Opening
pub mod First
pub mod Again
pub mod Twice
use porter_agent.Redis.Action.{◌>>=◌, Attempt, Action, done, lift, attempt, pure, error}
use porter_agent.Base.{List, [], ◌∷◌, Option, none, some, if◌then◌else◌, Bool, true, not, false}
use porter_agent.Redis.{Redis}
use porter_agent.Models.{EventCodec, ContainerEvent, PodEvent}
use porter_agent.Kube.{Cluster, Pod}
use porter_agent.Text.{Text, eq_text, codes, contains}
use porter_agent.Controller.Outcome.{Readings, Outcome, or_retry, finished, retry}
use porter_agent.Controller.Owner.{Owner}
use porter_agent.Filter.{FilteredMessageResult}
use porter_agent.Controller.Event.{event_of}
use porter_agent.Controller.Repeats.{is_repeated}
use porter_agent.Client.Events.{
  incident_exists, add_event_to_incident, get_latest_event_for_incident,
}
use porter_agent.Client.Active.{create_active_incident, active_incident_exists, get_active_incident}
use porter_agent.Controller.Pods.{has_last_terminated_state}
use porter_agent.Controller.Rollout.{can_ignore_multipod_deployment}
use porter_agent.Client.Logs.{duplicate_logs, add_logs}
use porter_agent.Result.{error_text}

-- The order in which the entries of a map are visited is not fixed: `visit` gives it.
module _ (redis : Redis) (codec : EventCodec) (cluster : Cluster redis.World)
    (visit : List (Text × ContainerEvent) → List (Text × ContainerEvent)) (clock : Readings) where
  open redis use {World}

  -- The loop over the containers, which fetches and stores their logs; `store` is what follows it.
  pub with_logs :
      Text
      → Pod
      → List (Text × ContainerEvent)
      → (List (Text × ContainerEvent) → Action World Outcome)
      → Action World Outcome
  with_logs id instance [] store = store []
  with_logs id instance ((name, event) ∷ events) store =
      let rest =
        λ (seen : ContainerEvent). with_logs id instance events (λ l. store ((name, seen) ∷ l)) in
      or_retry
        (lift (
          cluster.stream_logs instance.namespace instance.name name
            (has_last_terminated_state instance name)))
        λ str_logs.
          if eq_text str_logs []
          then rest event
          else if contains str_logs (codes "unable to retrieve container logs")
          then pure finished
          else or_retry (duplicate_logs redis id str_logs) λ duplicate.
            if duplicate
            then pure finished
            else or_retry (add_logs redis (clock.logged name) id str_logs)
                λ log_id. rest (record event { log_id = log_id })

  added : Attempt (Unit {0}) → Outcome
  added (done _) = finished
  added (error e) = if contains (error_text e) (codes "max event count") then finished else retry e

  store_event : Text → Pod → PodEvent → Bool → Action World Outcome
  unfolding with_logs added
  store_event id instance event is_new =
      with_logs id instance (visit event.container_events) λ events. do
        outcome ← attempt (
            add_event_to_incident redis codec clock.scored clock.announced id
              (record event { container_events = events }) is_new)
        pure (added outcome)

  unless_repeated : Text → Pod → PodEvent → Bool → Option PodEvent → Action World Outcome
  unfolding store_event
  unless_repeated id instance event is_new none = store_event id instance event is_new
  unless_repeated id instance event is_new (some latest) =
      if is_repeated event latest then pure finished else store_event id instance event is_new

  pub record_event : Pod → PodEvent → Text → Bool → Action World Outcome
  unfolding unless_repeated
  record_event instance event id is_new = or_retry (incident_exists redis id) λ exists.
      if exists
      then or_retry (get_latest_event_for_incident redis codec id)
          (unless_repeated id instance event is_new)
      else store_event id instance event is_new

  -- CreateActiveIncident and what follows it.
  create_incident : Owner → Pod → PodEvent → Action World Outcome
  unfolding record_event
  create_incident owner instance event =
      or_retry (create_active_incident redis clock.created owner.release_name instance.namespace)
        λ id. record_event instance event id true

  -- Without an active incident, a deployment that may miss the pod is ignored.
  open_incident : Text → Owner → Pod → PodEvent → Action World Outcome
  unfolding create_incident
  open_incident namespace owner instance event =
      if eq_text owner.kind (codes "Deployment")
      then (do
        ignore ← lift (can_ignore_multipod_deployment cluster namespace owner.name)
        if ignore then pure finished else create_incident owner instance event)
      else create_incident owner instance event

  -- The event of a pod with a report goes to the active incident, which is created if there is none.
  unfoldable pub report_pod : Text → Owner → Pod → FilteredMessageResult → Action World Outcome
  unfolding open_incident
  report_pod namespace owner instance filtered =
      let event = event_of clock.observed owner instance filtered in
      or_retry (active_incident_exists redis owner.release_name instance.namespace) λ exists.
        if not exists
        then open_incident namespace owner instance event
        else or_retry (get_active_incident redis owner.release_name instance.namespace)
            λ id. record_event instance event id false
