-- ===== src/Controller/Report/First.antt =====
-- What is left of the first report of a release, if the call succeeds at once, and if it fails and is
-- repeated.
use porter_agent.Client.Events.Storing.{announced, add_event-new, with_event, add_event-old}
use porter_agent.Incident.{new_incident, to_string, expiry, Incident}
use porter_agent.Base.{◌≡◌, List, [], ◌∷◌, some, true, false, refl, ap, ltb_ℤ, ◌≢◌, arith}
use porter_agent.Redis.Action.{◌>>=◌, pure}
use porter_agent.Redis.Takes.{Takes, Takes-bind, Takes-pure}
use porter_agent.Controller.Report.Opening.{
  visited, record_event-fresh, report_pod-creates, Takes-or_retry, IsQuiet, record_event-failed,
}
use porter_agent.Redis.{Redis}
use porter_agent.Models.{EventCodec, ContainerEvent}
use porter_agent.Text.{Text}
use porter_agent.Controller.Owner.{Owner}
use porter_agent.Kube.{Pod, Cluster}
use porter_agent.Filter.{FilteredMessageResult}
use porter_agent.Controller.Outcome.{Readings, finished, Outcome, retry}
use porter_agent.Redis.Keyspace.{
  Dataset, Scored, absent, as_members, as_scores, text, text-ne-absent, scores-ne-absent,
}
use porter_agent.Controller.Rollout.{can_ignore_multipod_deployment}
use porter_agent.Result.{ok, Error, err}
use porter_agent.Client.Keys.{
  active_key, pods_key, pending_key, active-ne-id, active-ne-pods, active-ne-pending, pods-ne-id,
  pods-ne-pending, id-ne-pending,
}
use porter_agent.Incident.RoundTrip.{IsWellFormed}
use porter_agent.Controller.Event.{event_of}
use porter_agent.Client.Events.{with_id}
use porter_agent.Controller.Report.{report_pod}
use porter_agent.Client.Active.Lifecycle.{
  opened, active_incident_exists-present, get_active_incident-Takes,
}
use porter_agent.Controller.Pods.{has_last_terminated_state}
use porter_agent.Text.Equality.{eq_text_refl}

module _ {redis : Redis} (codec : EventCodec)
    (visit : List (Text × ContainerEvent) → List (Text × ContainerEvent)) (namespace : Text)
    (owner : Owner) (instance : Pod) (filtered : FilteredMessageResult) where
  -- With the server up, let a pod whose release has no active incident and nothing stored have a report,
  -- let its deployment, if it has one, not be ignored, and let its containers have no logs. The call
  -- ends without an error: an incident that begins at the time of the call is the active one of the
  -- release, the event of the report is stored in it with the pod, and is to be forgotten after two
  -- weeks, and the notification of the new incident waits in the work queue.
  pub report_pod-opened :
      (cluster : Cluster redis.World) (clock : Readings) (event_json : Text) (d : Dataset)
      (pods : List Text) (queue : List Scored)
      → can_ignore_multipod_deployment cluster namespace owner.name ≡ ok false
      → d.values (active_key owner.release_name instance.namespace) ≡ absent
      → IsWellFormed (new_incident owner.release_name instance.namespace clock.created)
      → d.values (to_string (new_incident owner.release_name instance.namespace clock.created))
        ≡ absent
      → as_members (
          d.values (
            pods_key
              (to_string (new_incident owner.release_name instance.namespace clock.created))))
        ≡ some pods
      → as_scores (d.values pending_key) ≡ some queue
      → ltb_ℤ d.clock (expiry (new_incident owner.release_name instance.namespace clock.created))
        ≡ true
      → IsQuiet cluster instance
          (visit (event_of clock.observed owner instance filtered).container_events)
      → codec.marshal (
          with_id
            (to_string (new_incident owner.release_name instance.namespace clock.created))
            clock.scored
            (visited visit (event_of clock.observed owner instance filtered)))
        ≡ ok event_json
      → Takes redis
          (report_pod redis codec cluster visit clock namespace owner instance filtered)
          d
          (ok finished)
          (announced clock.scored clock.announced
            (new_incident owner.release_name instance.namespace clock.created)
            event_json
            instance.name
            pods
            queue
            (opened owner.release_name instance.namespace
              (to_string (new_incident owner.release_name instance.namespace clock.created))
              d))
  unfolding report_pod event_of
  report_pod-opened cluster clock event_json d pods queue counts none_active wf fresh affected
        waiting soon quiet encoded =
      let r = owner.release_name in
      let n = instance.namespace in
      let inc = new_incident r n clock.created in
      report_pod-creates codec cluster visit clock namespace owner instance filtered d _ _ counts
        none_active
        (record_event-fresh codec cluster visit clock instance
          (event_of clock.observed owner instance filtered) (to_string inc) true _ _
          (rw (active-ne-id r n inc) fresh) quiet
          (add_event-new codec clock.scored clock.announced inc
            (visited visit (event_of clock.observed owner instance filtered)) event_json _ pods
            queue wf encoded (rw (active-ne-id r n inc) fresh)
            (rw (active-ne-pods r n (to_string inc)) affected) (rw (active-ne-pending r n) waiting)
            soon))

  -- A report that goes to an active incident of which nothing is stored.
  report_pod-active :
      (cluster : Cluster redis.World) (clock : Readings) (inc : Incident) (event_json : Text)
      (d : Dataset) (pods : List Text)
      → d.values (active_key owner.release_name instance.namespace) ≡ text (to_string inc)
      → d.values (to_string inc) ≡ absent
      → as_members (d.values (pods_key (to_string inc))) ≡ some pods
      → IsQuiet cluster instance
          (visit (event_of clock.observed owner instance filtered).container_events)
      → codec.marshal (
          with_id
            (to_string inc)
            clock.scored
            (visited visit (event_of clock.observed owner instance filtered)))
        ≡ ok event_json
      → Takes redis
          (report_pod redis codec cluster visit clock namespace owner instance filtered)
          d
          (ok finished)
          (with_event clock.scored (to_string inc) event_json instance.name [] pods d)
  unfolding report_pod event_of
  report_pod-active cluster clock inc event_json d pods active fresh affected quiet encoded =
      Takes-or_retry _
        (active_incident_exists-present owner.release_name instance.namespace d
          (text-ne-absent active))
        (Takes-or_retry _
          (get_active_incident-Takes owner.release_name instance.namespace d _ active)
          (record_event-fresh codec cluster visit clock instance
            (event_of clock.observed owner instance filtered) (to_string inc) false _ _ fresh quiet
            (add_event-old codec clock.scored clock.announced inc
              (visited visit (event_of clock.observed owner instance filtered)) event_json d [] pods
              encoded (ap as_scores fresh) affected (omega arith))))

  -- With the server up, let the first call for a report create the incident and fail to fetch the logs
  -- of the first container, and let a second call find no logs. The first call asks for the second one,
  -- which ends without an error, and the event is stored. But the work queue is as it was, so nothing
  -- is told of the new incident, and the events have the deadline they had before, which is none.
  pub report_pod_retried :
      (cluster cluster' : Cluster redis.World) (clock clock' : Readings) (name : Text)
      (container : ContainerEvent) (containers : List (Text × ContainerEvent)) (e : Error)
      (event_json : Text) (d : Dataset) (pods : List Text)
      → can_ignore_multipod_deployment cluster namespace owner.name ≡ ok false
      → d.values (active_key owner.release_name instance.namespace) ≡ absent
      → d.values (to_string (new_incident owner.release_name instance.namespace clock.created))
        ≡ absent
      → as_members (
          d.values (
            pods_key
              (to_string (new_incident owner.release_name instance.namespace clock.created))))
        ≡ some pods
      → visit (event_of clock.observed owner instance filtered).container_events
        ≡ (name, container) ∷ containers
      → cluster.stream_logs instance.namespace instance.name name
          (has_last_terminated_state instance name)
        ≡ err e
      → IsQuiet cluster' instance
          (visit (event_of clock'.observed owner instance filtered).container_events)
      → codec.marshal (
          with_id
            (to_string (new_incident owner.release_name instance.namespace clock.created))
            clock'.scored
            (visited visit (event_of clock'.observed owner instance filtered)))
        ≡ ok event_json
      → (d' : Dataset) × Takes redis {A = Outcome × Outcome}
          (do
            first ← report_pod redis codec cluster visit clock namespace owner instance filtered
            second ← report_pod redis codec cluster' visit clock' namespace owner instance filtered
            pure (first, second))
          d
          (ok (retry e, finished))
          d'
        × (d'.values (to_string (new_incident owner.release_name instance.namespace clock.created))
            ≢ absent)
        × (d'.values pending_key ≡ d.values pending_key)
        × (d'.deadlines
              (to_string (new_incident owner.release_name instance.namespace clock.created))
            ≡ d.deadlines
                (to_string (new_incident owner.release_name instance.namespace clock.created)))
  report_pod_retried cluster cluster' clock clock' name container containers e event_json d pods
        counts none_active fresh affected order fails quiet encoded =
      let r = owner.release_name in
      let n = instance.namespace in
      let inc = new_incident r n clock.created in
      (
        with_event clock'.scored (to_string inc) event_json instance.name [] pods
            (opened r n (to_string inc) d),
        Takes-bind _
            (report_pod-creates codec cluster visit clock namespace owner instance filtered d _ _
              counts none_active
              (record_event-failed codec cluster visit clock instance
                (event_of clock.observed owner instance filtered) (to_string inc) true _ name
                container containers e (rw (active-ne-id r n inc) fresh) order fails))
            (Takes-bind _
              (report_pod-active cluster' clock' inc event_json _ pods
                (rw (eq_text_refl (active_key r n))) (rw (active-ne-id r n inc) fresh)
                (rw (active-ne-pods r n (to_string inc)) affected) quiet encoded)
              (Takes-pure _ _)),
        rw (pods-ne-id inc (to_string inc), eq_text_refl (to_string inc)) (scores-ne-absent refl),
        rw (pods-ne-pending (to_string inc), id-ne-pending inc, active-ne-pending r n),
        rw (active-ne-id r n inc),
      )
