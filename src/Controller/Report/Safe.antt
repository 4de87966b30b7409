-- ===== src/Controller/Report/Safe.antt =====
-- What the controller does with a pod that has something to report, in any world.
use porter_agent.Incident.{new_incident}
use porter_agent.Base.{◌∷◌, List, Bool, Option, some, [], not, true, false}
use porter_agent.Redis.{Redis}
use porter_agent.Models.{EventCodec, NeverPanics, ContainerEvent, PodEvent}
use porter_agent.Kube.{Cluster, IsValid, Pod}
use porter_agent.Text.{Text, eq_text, codes, contains}
use porter_agent.Controller.Outcome.{Readings, Outcome}
use porter_agent.Controller.Report.{
  with_logs, store_event, unless_repeated, record_event, create_incident, open_incident, report_pod,
}
use porter_agent.Redis.Keyspace.{Dataset}
use porter_agent.Redis.Action.{Action}
use porter_agent.Controller.Owner.{Owner}
use porter_agent.Incident.RoundTrip.{IsWellFormed}
use porter_agent.Filter.{FilteredMessageResult}
use porter_agent.Redis.Ensures.{
  Ensures, Anything, Ensures-weaken, Ensures-bind, Ensures-if, Ensures-attempt, Ensures-pure,
  Ensures-lift, Ensures-given,
}
use porter_agent.Client.Typing.{IsIncident, IsSound}
use porter_agent.Controller.Outcome.Safe.{or_retry-Ensures}
use porter_agent.Client.Events.Safe.{incident_exists-Ensures, get_latest-Ensures, add_event-Ensures}
use porter_agent.Controller.Repeats.{is_repeated}
use mathlib.Core.Option.{none}
use porter_agent.Client.Active.Safe.{
  create_active-Ensures, active_exists-Ensures, get_active-Ensures,
}
use porter_agent.Controller.Rollout.Safe.{can_ignore-ne-panic}
use porter_agent.Client.Logs.Safe.{duplicate_logs-Ensures, add_logs-Ensures}

module _ {redis : Redis} {codec : EventCodec} (returns : NeverPanics codec)
    (cluster : Cluster redis.World) (valid : IsValid redis.data_of cluster)
    (visit : List (Text × ContainerEvent) → List (Text × ContainerEvent)) (clock : Readings) where
  with_logs-Ensures :
      (id : Text) (instance : Pod) (events : List (Text × ContainerEvent))
      (store : List (Text × ContainerEvent) → Action redis.World Outcome)
      → ((l : List (Text × ContainerEvent))
          → Ensures redis IsSound Anything (store l) (λ _. Anything))
      → Ensures redis IsSound Anything
          (with_logs redis codec cluster visit clock id instance events store)
          (λ _. Anything)
  unfolding with_logs
  with_logs-Ensures id instance [] store h = h []
  with_logs-Ensures id instance ((name, event) ∷ events) store h =
      let rest = λ (seen : ContainerEvent).
        with_logs-Ensures id instance events (λ l. store ((name, seen) ∷ l))
          (λ l. h ((name, seen) ∷ l)) in
      or_retry-Ensures {Q = λ _. Anything} _
        (Ensures-lift _ (valid.stream_logs _ _ _ _) λ d a e p. tt)
        λ str_logs.
          Ensures-if (eq_text str_logs []) (λ _. rest event)
            λ _.
              Ensures-if (contains str_logs (codes "unable to retrieve container logs"))
                (λ _. Ensures-pure _ λ d p. tt)
                λ _. or_retry-Ensures _ (duplicate_logs-Ensures id str_logs) λ duplicate.
                  Ensures-if duplicate (λ _. Ensures-pure _ λ d p. tt)
                    λ _.
                      or_retry-Ensures _ (add_logs-Ensures (clock.logged name) id str_logs)
                        λ log_id. rest (record event { log_id = log_id })

  store_event-Ensures :
      {P : Dataset → Type 0} (id : Text) (instance : Pod) (event : PodEvent) (is_new : Bool)
      → IsIncident id
      → Ensures redis IsSound P
          (store_event redis codec cluster visit clock id instance event is_new)
          (λ _. Anything)
  unfolding store_event
  store_event-Ensures id instance event is_new h =
      Ensures-weaken (λ d p. tt) (λ a d q. q)
        (with_logs-Ensures id instance (visit event.container_events) _ λ events.
          Ensures-bind
            (Ensures-attempt (
              add_event-Ensures returns clock.scored clock.announced id
                (record event { container_events = events }) is_new h))
            λ outcome. Ensures-pure _ λ d p. tt)

  unless_repeated-Ensures :
      {P : Dataset → Type 0} (id : Text) (instance : Pod) (event : PodEvent) (is_new : Bool)
      (latest : Option PodEvent)
      → IsIncident id
      → Ensures redis IsSound P
          (unless_repeated redis codec cluster visit clock id instance event is_new latest)
          (λ _. Anything)
  unfolding unless_repeated
  unless_repeated-Ensures id instance event is_new none h =
      store_event-Ensures id instance event is_new h
  unless_repeated-Ensures id instance event is_new (some latest) h =
      Ensures-if (is_repeated event latest) (λ _. Ensures-pure _ λ d p. tt)
        λ _. store_event-Ensures id instance event is_new h

  record_event-Ensures :
      {P : Dataset → Type 0} (instance : Pod) (event : PodEvent) (id : Text) (is_new : Bool)
      → IsIncident id
      → Ensures redis IsSound P
          (record_event redis codec cluster visit clock instance event id is_new)
          (λ _. Anything)
  unfolding record_event
  record_event-Ensures instance event id is_new h =
      or_retry-Ensures _ (incident_exists-Ensures id) λ exists.
        Ensures-if exists
          (λ _.
            or_retry-Ensures _ (get_latest-Ensures returns id)
              λ latest. unless_repeated-Ensures id instance event is_new latest h)
          (λ _. store_event-Ensures id instance event is_new h)

  create_incident-Ensures :
      {P : Dataset → Type 0} (owner : Owner) (instance : Pod) (event : PodEvent)
      → IsWellFormed (new_incident owner.release_name instance.namespace clock.created)
      → Ensures redis IsSound P
          (create_incident redis codec cluster visit clock owner instance event)
          (λ _. Anything)
  unfolding create_incident
  create_incident-Ensures owner instance event h =
      or_retry-Ensures _
        (create_active-Ensures clock.created owner.release_name instance.namespace h)
        λ id. Ensures-given (λ d i p. p) λ known. record_event-Ensures instance event id true known

  open_incident-Ensures :
      {P : Dataset → Type 0} (namespace : Text) (owner : Owner) (instance : Pod) (event : PodEvent)
      → IsWellFormed (new_incident owner.release_name instance.namespace clock.created)
      → Ensures redis IsSound P
          (open_incident redis codec cluster visit clock namespace owner instance event)
          (λ _. Anything)
  unfolding open_incident
  open_incident-Ensures namespace owner instance event h =
      Ensures-if (eq_text owner.kind (codes "Deployment"))
        (λ _.
          Ensures-bind {Q = λ _. Anything}
            (Ensures-lift _ (can_ignore-ne-panic cluster valid namespace owner.name) λ d a e p. tt)
            λ ignore.
              Ensures-if ignore (λ _. Ensures-pure _ λ d p. tt)
                λ _. create_incident-Ensures owner instance event h)
        (λ _. create_incident-Ensures owner instance event h)

  pub report_pod-Ensures :
      {P : Dataset → Type 0} (namespace : Text) (owner : Owner) (instance : Pod)
      (filtered : FilteredMessageResult)
      → IsWellFormed (new_incident owner.release_name instance.namespace clock.created)
      → Ensures redis IsSound P
          (report_pod redis codec cluster visit clock namespace owner instance filtered)
          (λ _. Anything)
  unfolding report_pod
  report_pod-Ensures namespace owner instance filtered h =
      or_retry-Ensures _ (active_exists-Ensures owner.release_name instance.namespace) λ exists.
        Ensures-if (not exists) (λ _. open_incident-Ensures namespace owner instance _ h)
          λ _.
            or_retry-Ensures _ (get_active-Ensures owner.release_name instance.namespace) λ id.
              Ensures-given (λ d i p. p) λ known. record_event-Ensures instance _ id false known
