-- ===== src/Controller/Report/Opening.antt =====
-- The first report of a release, and a call that is repeated after a failure.
use porter_agent.Base.{◌≡◌, List, [], ◌∷◌, All, subst, false, Bool, true, Bool-cases, inl, inr, ap}
use porter_agent.Redis.Action.{Action, lift}
use porter_agent.Redis.Takes.{
  Takes, Takes-bind, Takes-attempt, Takes-pure, Takes-lift, Takes-or_error, Takes-call,
}
use porter_agent.Kube.{Cluster, Pod}
use porter_agent.Redis.{Redis}
use porter_agent.Controller.Outcome.{or_retry, Outcome, Readings, retry, finished}
use porter_agent.Result.{Result, ok, Error, err}
use porter_agent.Models.{EventCodec, ContainerEvent, PodEvent}
use porter_agent.Text.{Text, eq_text, codes}
use porter_agent.Redis.Keyspace.{Dataset, absent}
use porter_agent.Controller.Pods.{has_last_terminated_state}
use porter_agent.Controller.Report.{
  with_logs, record_event, report_pod, store_event, open_incident, added, create_incident,
}
use porter_agent.Client.Events.{incident_exists, add_event_to_incident}
use porter_agent.Controller.Owner.{Owner}
use porter_agent.Filter.{FilteredMessageResult}
use porter_agent.Controller.Rollout.{can_ignore_multipod_deployment}
use porter_agent.Client.Keys.{active_key}
use porter_agent.Controller.Event.{event_of}
use porter_agent.Incident.{to_string, new_incident}
use porter_agent.Client.Active.Lifecycle.{
  opened, create_active_incident-Takes, active_incident_exists-absent,
}
use porter_agent.Redis.Laws.{exists_absent}

-- No container of the list has logs.
abbrev pub IsQuiet : {W : Type 0} → Cluster W → Pod → List (Text × ContainerEvent) → Type 0
IsQuiet cluster instance = All (λ (entry : Text × ContainerEvent).
    cluster.stream_logs instance.namespace instance.name entry.0
      (has_last_terminated_state instance entry.0)
    ≡ ok [])

-- The event that is stored: its container events are in the order in which they were visited.
abbrev pub visited :
    (List (Text × ContainerEvent) → List (Text × ContainerEvent)) → PodEvent → PodEvent
visited visit event = record event { container_events = visit event.container_events }

abbrev first_name : List (Text × ContainerEvent) → Text
first_name [] = []
first_name (entry ∷ events) = entry.0

module _ {redis : Redis} where
  pub Takes-or_retry :
      {A : Type 0} {m : Action redis.World A} (f : A → Action redis.World Outcome)
      {d d₁ d₂ : Dataset} {a : A} {r : Result Outcome}
      → Takes redis m d (ok a) d₁
      → Takes redis (f a) d₁ r d₂
      → Takes redis (or_retry m f) d r d₂
  unfolding or_retry
  Takes-or_retry f h k = Takes-bind _ (Takes-attempt h) k

  Takes-or_retry_err :
      {A : Type 0} {m : Action redis.World A} (f : A → Action redis.World Outcome) {d d₁ : Dataset}
      {e : Error}
      → Takes redis m d (err e) d₁
      → Takes redis (or_retry m f) d (ok (retry e)) d₁
  unfolding or_retry
  Takes-or_retry_err f h = Takes-bind _ (Takes-attempt h) (Takes-pure _ _)

  pub known :
      {A : Type 0} {r : Result A} (q : Result A) (d : Dataset) → r ≡ q → Takes redis (lift r) d q d
  known {r} q d h = subst (λ x. Takes redis (lift r) d x d) h (Takes-lift r d)

module _ {redis : Redis} (codec : EventCodec) (cluster : Cluster redis.World)
    (visit : List (Text × ContainerEvent) → List (Text × ContainerEvent)) (clock : Readings) where
  pub with_logs-quiet :
      (id : Text) (instance : Pod) (events : List (Text × ContainerEvent))
      (store : List (Text × ContainerEvent) → Action redis.World Outcome) (d d' : Dataset)
      (r : Result Outcome)
      → IsQuiet cluster instance events
      → Takes redis (store events) d r d'
      → Takes redis (with_logs redis codec cluster visit clock id instance events store) d r d'
  unfolding with_logs eq_text
  with_logs-quiet id instance [] store d d' r quiet h = h
  with_logs-quiet id instance ((name, event) ∷ events) store d d' r quiet h =
      Takes-or_retry _ (known (ok []) d quiet.0)
        (with_logs-quiet id instance events (λ l. store ((name, event) ∷ l)) d d' r quiet.1 h)

  pub with_logs-failed :
      (id : Text) (instance : Pod) (name : Text) (container : ContainerEvent)
      (containers events : List (Text × ContainerEvent))
      (store : List (Text × ContainerEvent) → Action redis.World Outcome) (d : Dataset) (e : Error)
      → events ≡ (name, container) ∷ containers
      → cluster.stream_logs instance.namespace instance.name name
          (has_last_terminated_state instance name)
        ≡ err e
      → Takes redis
          (with_logs redis codec cluster visit clock id instance events store)
          d
          (ok (retry e))
          d
  unfolding with_logs
  with_logs-failed id instance name container containers [] store d e order failed =
      absurd (cc order)
  with_logs-failed id instance name container containers ((n, c) ∷ l) store d e order failed =
      Takes-or_retry_err _ (known (err e) d (rw (ap first_name order) failed))

  pub absent-Takes :
      (id : Text) (d : Dataset)
      → d.values id ≡ absent
      → Takes redis (incident_exists redis id) d (ok false) d
  unfolding incident_exists
  absent-Takes id d h =
      Takes-bind _ (Takes-or_error _ (Takes-call _ (exists_absent redis id d h)))
        (Takes-pure false d)

  -- An event without logs for an incident of which nothing is stored.
  pub record_event-fresh :
      (instance : Pod) (event : PodEvent) (id : Text) (is_new : Bool) (d d' : Dataset)
      → d.values id ≡ absent
      → IsQuiet cluster instance (visit event.container_events)
      → Takes redis
          (add_event_to_incident redis codec clock.scored clock.announced id
            (visited visit event)
            is_new)
          d
          (ok tt)
          d'
      → Takes redis
          (record_event redis codec cluster visit clock instance event id is_new)
          d
          (ok finished)
          d'
  unfolding record_event store_event added
  record_event-fresh instance event id is_new d d' fresh quiet h =
      Takes-or_retry _ (absent-Takes id d fresh) (
        with_logs-quiet id instance (visit event.container_events) _ d d' _ quiet
          (Takes-bind _ (Takes-attempt h) (Takes-pure _ _)))

  -- If the logs of the first container cannot be fetched, nothing is stored.
  pub record_event-failed :
      (instance : Pod) (event : PodEvent) (id : Text) (is_new : Bool) (d : Dataset) (name : Text)
      (container : ContainerEvent) (containers : List (Text × ContainerEvent)) (e : Error)
      → d.values id ≡ absent
      → visit event.container_events ≡ (name, container) ∷ containers
      → cluster.stream_logs instance.namespace instance.name name
          (has_last_terminated_state instance name)
        ≡ err e
      → Takes redis
          (record_event redis codec cluster visit clock instance event id is_new)
          d
          (ok (retry e))
          d
  unfolding record_event store_event added
  record_event-failed instance event id is_new d name container containers e fresh order fails =
      Takes-or_retry _ (absent-Takes id d fresh) (
        with_logs-failed id instance name container containers (visit event.container_events) _ d e
          order fails)

  -- Without an active incident, a report creates one.
  pub report_pod-creates :
      (namespace : Text) (owner : Owner) (instance : Pod) (filtered : FilteredMessageResult)
      (d d' : Dataset) (r : Result Outcome)
      → can_ignore_multipod_deployment cluster namespace owner.name ≡ ok false
      → d.values (active_key owner.release_name instance.namespace) ≡ absent
      → Takes redis
          (record_event redis codec cluster visit clock instance
            (event_of clock.observed owner instance filtered)
            (to_string (new_incident owner.release_name instance.namespace clock.created))
            true)
          (opened owner.release_name instance.namespace
            (to_string (new_incident owner.release_name instance.namespace clock.created))
            d)
          r
          d'
      → Takes redis
          (report_pod redis codec cluster visit clock namespace owner instance filtered)
          d
          r
          d'
  unfolding report_pod open_incident create_incident
  report_pod-creates namespace owner instance filtered d d' r counts none_active h =
      let created =
        Takes-or_retry _
          (create_active_incident-Takes clock.created owner.release_name instance.namespace d) h in
      Takes-or_retry _
        (active_incident_exists-absent owner.release_name instance.namespace d none_active)
        (elim (Bool-cases (eq_text owner.kind (codes "Deployment"))) [
          | inl same ↦ rw same (Takes-bind _ (known (ok false) d counts) created)
          | inr other ↦ rw other created
        ])
