-- ===== src/Client/Events/Safe.antt =====
-- The methods on the events of an incident in any world: they keep what each key holds, and never
-- panic.
use mathlib.Core.List.{reverse-reverse, reverse}
use porter_agent.Base.{
  ◌≡◌, ℤ, Bool, List, true, ◌≢◌, subst, sym, not, [], none, false, ◌∷◌, leb, refl, ◌==◌, length,
  ◌++◌, ◌∙◌, ap,
}
use porter_agent.Client.Events.{
  object_of, incident_exists, check_room, expire_incident, announce, read_event,
  add_event_to_incident, latest_of, get_latest_event_for_incident, with_id, max_events,
}
use porter_agent.Redis.{Redis}
use porter_agent.Redis.Keyspace.{Dataset, Scored, absent}
use porter_agent.Models.{EventCodec, NeverPanics, PodEvent}
use porter_agent.Text.{Text, codes}
use porter_agent.Client.Typing.{IsIncident, IsSound}
use porter_agent.Redis.Ensures.{
  Ensures, Ensures-pure, Anything, Ensures-or_error, Ensures-bind, Ensures-lift, Ensures-if,
  Ensures-attempt, Ensures-weaken, Ensures-raise,
}
use porter_agent.Incident.{new_incident_from_string, expiry}
use porter_agent.Client.Typing.Calls.{
  zrange_all-Ensures, expire_at-Ensures, zadd-Ensures, zrange_rev_all-Ensures, exists-Ensures,
  sadd-Ensures,
}
use porter_agent.Client.Keys.{pods_key}
use porter_agent.Client.Typing.Identifiers.{AllowsScores-id, id-cons, AllowsMembers-pods}
use porter_agent.Client.Queue.Safe.{append-Ensures}
use porter_agent.Result.{ok}

-- An identifier that can be read gives an object.
pub object_of-Ensures :
    {redis : Redis} {P : Dataset → Type 0} (id : Text)
    → IsIncident id
    → Ensures redis IsSound P
        (object_of (new_incident_from_string id))
        (λ inc d. P d × (new_incident_from_string id ≡ ok inc))
unfolding object_of
object_of-Ensures {redis} {P} id (inc, e) =
    subst (λ r. Ensures redis IsSound P (object_of r) (λ inc d. P d × (r ≡ ok inc))) (sym e)
      (Ensures-pure inc λ d p. (p, refl))

module _ {redis : Redis} {P : Dataset → Type 0} where
  pub incident_exists-Ensures :
      (id : Text)
      → Ensures redis IsSound P
          (incident_exists redis id)
          (λ found d. P d × (found ≡ true → d.values id ≢ absent))
  unfolding incident_exists
  incident_exists-Ensures id =
      Ensures-bind (Ensures-or_error _ (exists-Ensures redis id))
        λ val. Ensures-pure _ λ d p. (p.0, λ e. p.1 (not-true (val == 0) e))
    where
      not-true : (b : Bool) → not b ≡ true → b ≡ false
      not-true false e = refl
      not-true true e = absurd (cc e)

  check_room-Ensures :
      (id : Text) (is_new : Bool) → Ensures redis IsSound P (check_room redis id is_new) (λ _. P)
  unfolding check_room
  check_room-Ensures id true = Ensures-pure _ λ d p. p
  check_room-Ensures id false = Ensures-bind (zrange_all-Ensures redis id) λ events.
      Ensures-if (leb max_events (length events)) (λ _. Ensures-raise _)
        λ _. Ensures-pure _ λ d p. p

  expire_incident-Ensures :
      (id : Text) (is_new : Bool)
      → IsIncident id
      → Ensures redis IsSound P (expire_incident redis id is_new) (λ _. Anything)
  unfolding expire_incident
  expire_incident-Ensures id false h = Ensures-pure _ λ d p. tt
  expire_incident-Ensures id true h =
      Ensures-bind (object_of-Ensures id h)
        λ inc. Ensures-or_error _ (expire_at-Ensures redis id (expiry inc))

  announce-Ensures :
      (later : ℤ) (id : Text) (is_new : Bool)
      → IsIncident id
      → Ensures redis IsSound P (announce redis later id is_new) (λ _. Anything)
  unfolding announce
  announce-Ensures later id false h = Ensures-pure _ λ d p. tt
  announce-Ensures later id true h = Ensures-bind (object_of-Ensures id h) λ inc.
      Ensures-bind (Ensures-or_error _ (expire_at-Ensures redis (pods_key id) (expiry inc))) λ _.
        Ensures-bind (Ensures-attempt (append-Ensures later (codes "new:" ++ id)))
          λ _. Ensures-pure _ λ d p. tt

module _ {redis : Redis} {codec : EventCodec} (returns : NeverPanics codec)
    {P : Dataset → Type 0} where
  pub read_event-Ensures :
      (id : Text) (a : Scored) → Ensures redis IsSound P (read_event redis codec id a) (λ _. P)
  unfolding read_event
  read_event-Ensures id a =
      Ensures-or_error _ (Ensures-lift _ (returns.unmarshal a.member) λ d e q p. p)

  pub add_event-Ensures :
      (score later : ℤ) (id : Text) (event : PodEvent) (is_new : Bool)
      → IsIncident id
      → Ensures redis IsSound P
          (add_event_to_incident redis codec score later id event is_new)
          (λ _. Anything)
  unfolding add_event_to_incident
  add_event-Ensures score later id event is_new h = Ensures-bind (check_room-Ensures id is_new) λ _.
      Ensures-bind
        (Ensures-or_error _
          (Ensures-lift _ (returns.marshal (with_id id score event)) λ d t e p. p))
        λ json.
          Ensures-bind
            (Ensures-or_error _ (zadd-Ensures redis id score json (AllowsScores-id id h)))
            λ _. Ensures-bind (expire_incident-Ensures id is_new h) λ _.
              Ensures-bind
                (Ensures-or_error _
                  (sadd-Ensures redis (pods_key id) event.pod_name (AllowsMembers-pods id)))
                λ _. announce-Ensures later id is_new h

-- The latest event of an incident that is there is not nil.
module _ {redis : Redis} {codec : EventCodec} (returns : NeverPanics codec) where
  latest_of-Ensures :
      {P : Dataset → Type 0} (id : Text) (l : List Scored)
      → Ensures redis IsSound
          (λ d. IsSound d × P d × (IsIncident id → d.values id ≢ absent → l ≢ []))
          (latest_of redis codec id l)
          (λ latest d. P d × (IsIncident id → d.values id ≢ absent → latest ≢ none))
  unfolding latest_of
  latest_of-Ensures id [] = Ensures-pure _ λ d p. (p.1, λ i n. absurd (p.2 i n refl))
  latest_of-Ensures id (a ∷ rest) =
      Ensures-bind (read_event-Ensures returns id a)
        λ event. Ensures-pure _ λ d p. (p.1, λ i n e. cc)

  pub get_latest-Ensures :
      {P : Dataset → Type 0} (id : Text)
      → Ensures redis IsSound P
          (get_latest_event_for_incident redis codec id)
          (λ latest d. P d × (IsIncident id → d.values id ≢ absent → latest ≢ none))
  unfolding get_latest_event_for_incident
  get_latest-Ensures id = Ensures-bind (zrange_rev_all-Ensures redis id) λ items.
      Ensures-weaken
        (λ d p.
          let (s, e, q) = p.2 in
          (
            p.0,
            p.1,
            λ i n z. id-cons id d s i p.0 n e (sym (reverse-reverse s) ∙ ap reverse (sym q ∙ z)),
          ))
        (λ a d q. q) (latest_of-Ensures id items)
