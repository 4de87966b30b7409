-- ===== src/Client/Events/Latest.antt =====
-- The latest event of an incident is the one that was added last.
use porter_agent.Base.{ℤ, ◌≡◌, List, [], ◌∷◌, subst, some, ◌++◌, none, length, ◌<◌, false, ap}
use mathlib.Core.List.{reverse-append}
use porter_agent.Redis.Action.{◌>>◌, lift}
use porter_agent.Redis.{Redis}
use porter_agent.Redis.Takes.{Takes, Takes-bind, Takes-call, Takes-or_error, Takes-pure, Takes-lift}
use porter_agent.Redis.Order.{AllBelow, add_scored_last}
use porter_agent.Client.Events.Storing.{add_event-old, with_event}
use porter_agent.Client.Events.{
  get_latest_event_for_incident, latest_of, read_event, add_event_to_incident, with_id, max_events,
  Incident,
}
use porter_agent.Models.{EventCodec, PodEvent}
use porter_agent.Text.{Text}
use porter_agent.Redis.Keyspace.{Scored, Dataset, as_scores, as_members, without_member}
use porter_agent.Result.{ok}
use porter_agent.Incident.{to_string}
use porter_agent.Client.Keys.{pods_key, pods-ne-id}
use porter_agent.Text.Equality.{eq_text_refl}
use porter_agent.Redis.Laws.{zrange_rev_all-Replies}

module _ {redis : Redis} (codec : EventCodec) where
  read_event-Takes :
      (id : Text) (a : Scored) (event : PodEvent) (d : Dataset)
      → codec.unmarshal a.member ≡ ok event
      → Takes redis (read_event redis codec id a) d (ok event) d
  unfolding read_event
  read_event-Takes id a event d decoded =
      Takes-or_error _
        (subst (λ r. Takes redis (lift (codec.unmarshal a.member)) d r d) decoded (Takes-lift _ d))

  -- With the server up, the latest event is the one with the greatest score.
  pub get_latest-Takes :
      (id : Text) (older : List Scored) (a : Scored) (event : PodEvent) (d : Dataset)
      → as_scores (d.values id) ≡ some (older ++ a ∷ [])
      → codec.unmarshal a.member ≡ ok event
      → Takes redis (get_latest_event_for_incident redis codec id) d (ok (some event)) d
  unfolding get_latest_event_for_incident latest_of
  get_latest-Takes id older a event d stored decoded =
      Takes-bind _ (Takes-call _ (zrange_rev_all-Replies redis id d _ stored)) (
        rw (reverse-append older (a ∷ []))
          (Takes-bind _ (read_event-Takes id a event d decoded) (Takes-pure _ d)))

  -- With the server up, an incident that is there and holds no event has no latest event.
  pub get_latest-none :
      (id : Text) (d : Dataset)
      → as_scores (d.values id) ≡ some []
      → Takes redis (get_latest_event_for_incident redis codec id) d (ok none) d
  unfolding get_latest_event_for_incident latest_of
  get_latest-none id d stored =
      Takes-bind _ (Takes-call _ (zrange_rev_all-Replies redis id d [] stored)) (Takes-pure none d)

  -- With the server up, let an event be added to an incident with fewer than 500 events, all of
  -- them older, and let its encoding be decoded to it. It is then the latest event, with the
  -- identifier that it got.
  pub get_latest-add_event :
      (score later : ℤ) (inc : Incident) (event : PodEvent) (event_json : Text) (d : Dataset)
      (events : List Scored) (pods : List Text)
      → codec.marshal (with_id (to_string inc) score event) ≡ ok event_json
      → codec.unmarshal event_json ≡ ok (with_id (to_string inc) score event)
      → as_scores (d.values (to_string inc)) ≡ some events
      → as_members (d.values (pods_key (to_string inc))) ≡ some pods
      → length events < max_events
      → AllBelow score events
      → Takes redis
          (add_event_to_incident redis codec score later (to_string inc) event false
            >> get_latest_event_for_incident redis codec (to_string inc))
          d
          (ok (some (with_id (to_string inc) score event)))
          (with_event score (to_string inc) event_json event.pod_name events pods d)
  get_latest-add_event score later inc event event_json d events pods encoded decoded stored
        affected room newest =
      Takes-bind _
        (add_event-old codec score later inc event event_json d events pods encoded stored affected
          room)
        (get_latest-Takes (to_string inc) (without_member event_json events)
          (record { member = event_json; score = score }) _ _
          (rw (pods-ne-id inc (to_string inc), eq_text_refl (to_string inc))
            (ap some (add_scored_last event_json score events newest)))
          decoded)
