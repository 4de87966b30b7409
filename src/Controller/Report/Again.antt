-- ===== src/Controller/Report/Again.antt =====
-- Which reports of a pod are stored in an incident that has an event already.
use porter_agent.Incident
use porter_agent.Base.{◌≡◌, List, true, false, ◌++◌, ◌∷◌, [], some, ap}
use porter_agent.Client.Active.Lifecycle.{active_incident_exists-present, get_active_incident-Takes}
use porter_agent.Redis.{Redis}
use porter_agent.Models.{EventCodec, ContainerEvent, PodEvent}
use porter_agent.Kube.{Cluster, Pod}
use porter_agent.Text.{Text}
use porter_agent.Controller.Outcome.{Readings, finished}
use porter_agent.Controller.Owner.{Owner}
use porter_agent.Filter.{FilteredMessageResult}
use porter_agent.Redis.Keyspace.{
  Scored, Dataset, text, scores, text-ne-absent, scores-ne-absent, as_scores,
}
use porter_agent.Client.Keys.{active_key}
use porter_agent.Incident.{to_string}
use porter_agent.Result.{ok}
use porter_agent.Controller.Report.{report_pod, unless_repeated, record_event}
use porter_agent.Controller.Repeats.{is_repeated}
use porter_agent.Redis.Takes.{Takes, Takes-pure}
use porter_agent.Controller.Event.{event_of}
use porter_agent.Controller.Report.Opening.{Takes-or_retry}
use porter_agent.Client.Resolve.Lifecycle.{incident_exists-Takes}
use porter_agent.Client.Events.Latest.{get_latest-Takes}

module _ {redis : Redis} (codec : EventCodec) (cluster : Cluster redis.World)
    (visit : List (Text × ContainerEvent) → List (Text × ContainerEvent)) (clock : Readings)
    (namespace : Text) (owner : Owner) (instance : Pod) (filtered : FilteredMessageResult) where
  -- What a call for a report does with an active incident that has a latest event.
  module _ (inc : Incident.Incident) (older : List Scored) (a : Scored) (latest : PodEvent)
      (d : Dataset)
      (active : d.values (active_key owner.release_name instance.namespace) ≡ text (to_string inc))
      (stored : d.values (to_string inc) ≡ scores (older ++ a ∷ []))
      (decoded : codec.unmarshal a.member ≡ ok latest) where
    report_pod-latest :
        (d' : Dataset)
        → Takes redis
            (unless_repeated redis codec cluster visit clock
              (to_string inc)
              instance
              (event_of clock.observed owner instance filtered)
              false
              (some latest))
            d
            (ok finished)
            d'
        → Takes redis
            (report_pod redis codec cluster visit clock namespace owner instance filtered)
            d
            (ok finished)
            d'
    unfolding report_pod record_event
    report_pod-latest d' h =
        Takes-or_retry _
          (active_incident_exists-present owner.release_name instance.namespace d
            (text-ne-absent active))
          (Takes-or_retry _
            (get_active_incident-Takes owner.release_name instance.namespace d _ active)
            (Takes-or_retry _ (incident_exists-Takes (to_string inc) d (scores-ne-absent stored)) (
              Takes-or_retry _
                (get_latest-Takes codec (to_string inc) older a latest d (ap as_scores stored)
                  decoded)
                h)))

    pub report_pod-left_out :
        is_repeated (event_of clock.observed owner instance filtered) latest ≡ true
        → Takes redis
            (report_pod redis codec cluster visit clock namespace owner instance filtered)
            d
            (ok finished)
            d
    unfolding unless_repeated
    report_pod-left_out repeated = report_pod-latest d (rw repeated (Takes-pure _ d))
