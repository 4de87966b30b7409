-- ===== src/Controller/Report/Twice.antt =====
-- A report that comes twice in a row is stored once.
use porter_agent.Incident
use porter_agent.Base.{◌≡◌, List, some, ltb_ℤ, true, false, ℤ, [], ◌++◌, ◌∷◌, refl}
use mathlib.Core.List.{Perm}
use porter_agent.Redis.Action.{◌>>=◌, pure}
use porter_agent.Client.Events.Storing.{announced}
use porter_agent.Client.Active.Lifecycle.{opened}
use porter_agent.Incident.{to_string, new_incident, expiry}
use porter_agent.Controller.Report.First.{report_pod-opened}
use porter_agent.Controller.Report.Again.{report_pod-left_out}
use porter_agent.Redis.{Redis}
use porter_agent.Text.{Text}
use porter_agent.Models.{EventCodec, ContainerEvent}
use porter_agent.Redis.Keyspace.{
  Scored, Dataset, add_scored, text, insert_scored, without_member, scores, absent, as_members,
  as_scores,
}
use porter_agent.Controller.Owner.{Owner}
use porter_agent.Client.Keys.{
  active_key, pending-ne-active, pods-ne-active, id-ne-active, pending-ne-id, pods-ne-id, pods_key,
  pending_key,
}
use porter_agent.Kube.{Pod, Cluster}
use porter_agent.Filter.{FilteredMessageResult}
use porter_agent.Controller.Event.{event_of}
use porter_agent.Controller.Outcome.{Readings, Outcome, finished}
use porter_agent.Text.Equality.{eq_text_refl}
use porter_agent.Controller.Rollout.{can_ignore_multipod_deployment}
use porter_agent.Result.{ok}
use porter_agent.Incident.RoundTrip.{IsWellFormed}
use porter_agent.Controller.Report.Opening.{IsQuiet, visited}
use porter_agent.Client.Events.{with_id}
use porter_agent.Redis.Takes.{Takes, Takes-bind, Takes-pure}
use porter_agent.Controller.Report.{report_pod}
use porter_agent.Controller.Repeats.Sound.{is_repeated_again}
use porter_agent.Controller.Repeats.Unique.{container_events_of-IsMap}

module _ (score later : ℤ) (inc : Incident.Incident) (event_json pod : Text) (pods : List Text)
    (queue : List Scored) (release_name namespace : Text) (d : Dataset) where
  -- The dataset after the first report.
  abbrev after_first : Dataset
  after_first =
      announced score later inc event_json pod pods queue
        (opened release_name namespace (to_string inc) d)

  after_first-active : after_first.values (active_key release_name namespace) ≡ text (to_string inc)
  after_first-active = rw (
    pending-ne-active release_name namespace,
    pods-ne-active (to_string inc) release_name namespace,
    id-ne-active inc release_name namespace,
    eq_text_refl (active_key release_name namespace),
  )

  after_first-stored :
      after_first.values (to_string inc)
      ≡ scores ([] ++ record { member = event_json; score = score } ∷ [])
  unfolding add_scored insert_scored without_member
  after_first-stored =
      rw (pending-ne-id inc, pods-ne-id inc (to_string inc), eq_text_refl (to_string inc))

module _ {redis : Redis} (codec : EventCodec)
    (visit : List (Text × ContainerEvent) → List (Text × ContainerEvent)) (namespace : Text)
    (owner : Owner) (instance : Pod) (filtered : FilteredMessageResult) where
  -- With the server up, let the first report of a release open an incident, as its only event, and
  -- let that event be decoded to what was encoded, whose container events are those of the report
  -- in the order in which the map was visited. If the controller is called again for the same pod
  -- and report, at any later time, whatever the containers have logged and whatever the API server
  -- says, both calls end without an error, and the dataset is the one that the first call has left:
  -- the second call stores and announces nothing.
  pub report_pod-twice :
      (cluster cluster' : Cluster redis.World) (clock clock' : Readings)
      (visit' : List (Text × ContainerEvent) → List (Text × ContainerEvent)) (event_json : Text)
      (d : Dataset) (pods : List Text) (queue : List Scored)
      → can_ignore_multipod_deployment cluster namespace owner.name ≡ ok false
      → d.values (active_key owner.release_name instance.namespace) ≡ absent
      → IsWellFormed (new_incident owner.release_name instance.namespace clock.created)
      → d.values (to_string (new_incident owner.release_name instance.namespace clock.created))
        ≡ absent
      → as_members (
          d.values (
            pods_key
              (to_string (new_incident owner.release_name instance.namespace clock.created))))
        ≡ some pods
      → as_scores (d.values pending_key) ≡ some queue
      → ltb_ℤ d.clock (expiry (new_incident owner.release_name instance.namespace clock.created))
        ≡ true
      → IsQuiet cluster instance
          (visit (event_of clock.observed owner instance filtered).container_events)
      → codec.marshal (
          with_id
            (to_string (new_incident owner.release_name instance.namespace clock.created))
            clock.scored
            (visited visit (event_of clock.observed owner instance filtered)))
        ≡ ok event_json
      → codec.unmarshal event_json
        ≡ ok (
            with_id
              (to_string (new_incident owner.release_name instance.namespace clock.created))
              clock.scored
              (visited visit (event_of clock.observed owner instance filtered)))
      → Perm
          (visit (event_of clock.observed owner instance filtered).container_events)
          (event_of clock.observed owner instance filtered).container_events
      → Takes redis {A = Outcome × Outcome}
          (do
            first ← report_pod redis codec cluster visit clock namespace owner instance filtered
            second ← report_pod redis codec cluster' visit' clock' namespace owner instance filtered
            pure (first, second))
          d
          (ok (finished, finished))
          (announced clock.scored clock.announced
            (new_incident owner.release_name instance.namespace clock.created)
            event_json
            instance.name
            pods
            queue
            (opened owner.release_name instance.namespace
              (to_string (new_incident owner.release_name instance.namespace clock.created))
              d))
  unfolding event_of
  report_pod-twice cluster cluster' clock clock' visit' event_json d pods queue counts none_active
        wf fresh affected waiting soon quiet encoded decoded order =
      let r = owner.release_name in
      let n = instance.namespace in
      let inc = new_incident r n clock.created in
      let latest =
        with_id (to_string inc) clock.scored
          (visited visit (event_of clock.observed owner instance filtered)) in
      Takes-bind _
        (report_pod-opened codec visit namespace owner instance filtered cluster clock event_json d
          pods queue counts none_active wf fresh affected waiting soon quiet encoded)
        (Takes-bind _
          (report_pod-left_out codec cluster' visit' clock' namespace owner instance filtered inc []
            (record { member = event_json; score = clock.scored }) latest _
            (after_first-active clock.scored clock.announced inc event_json instance.name pods queue
              r n d)
            (after_first-stored clock.scored clock.announced inc event_json instance.name pods queue
              r n d)
            decoded
            (is_repeated_again (event_of clock'.observed owner instance filtered) latest refl refl
              order (container_events_of-IsMap filtered.container_statuses)))
          (Takes-pure _ _))
