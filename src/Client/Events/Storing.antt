-- ===== src/Client/Events/Storing.antt =====
-- What `AddEventToIncident` stores, and what it refuses.
use porter_agent.Base.{
  ℤ, ◌≡◌, List, [], some, ◌≤◌, length, ◌++◌, ◌<◌, false, ℕ, Bool, subst, if◌then◌else◌, Bool-cases,
  ◌≢◌, ltb_ℤ, leb, true, ap, inl, arith, length-map, inr, refl,
}
use porter_agent.Text.{Text, codes}
use porter_agent.Result.{ok, err, fail, Result, Error}
use porter_agent.Incident.{Incident, to_string, expiry}
use porter_agent.Incident.RoundTrip.{IsWellFormed}
use porter_agent.Redis.{Redis}
use porter_agent.Redis.Takes.{
  Takes, Takes-bind, Takes-bind_err, Takes-call, Takes-or_error, Takes-pure, Takes-raise,
  Takes-lift, Takes-attempt,
}
use porter_agent.Client.Keys.{pods_key, pending_key, id-ne-pods, pods-ne-pending, id-ne-pending}
use porter_agent.Client.Resolve.Lifecycle.{object_of-Takes, append-Takes}
use porter_agent.Client.Events.{add_event_to_incident, check_room, with_id, max_events}
use porter_agent.Redis.Keyspace.{
  Scored, Dataset, put, as_scores, members, scores, add_member, add_scored, as_members,
  set_deadline, absent, put-ne-absent, scores-ne-absent, members-ne-absent,
}
use porter_agent.Models.{EventCodec, PodEvent}
use porter_agent.Redis.Action.{or_error, lift, raise, call, pure}
use porter_agent.Redis.Laws.{zrange_all-Replies, expire_at_later, zadd-Replies, sadd-Replies}

-- The event is in the sorted set of the incident, and its pod in the set of affected pods.
abbrev pub with_event : ℤ → Text → Text → Text → List Scored → List Text → Dataset → Dataset
with_event score id event_json pod events pods d =
    put (pods_key id) (members (add_member pod pods))
      (put id (scores (add_scored event_json score events)) d)

-- A new incident gets its deadline between the two writes, the set of pods gets one afterwards, and
-- the notification waits to be sent.
abbrev pub announced : ℤ → ℤ → Incident → Text → Text → List Text → List Scored → Dataset → Dataset
announced score later inc event_json pod pods queue d =
    let id = to_string inc in
    put pending_key (scores (add_scored (codes "new:" ++ id) later queue)) (
      set_deadline (pods_key id) (some (expiry inc)) (
        put (pods_key id) (members (add_member pod pods)) (
          set_deadline id (some (expiry inc))
            (put id (scores (add_scored event_json score [])) d))))

-- The answer to the question whether the incident takes another event.
abbrev room_for : Text → ℕ → Result (Unit {0})
room_for id n =
    if leb max_events n
    then err (fail (codes "reached max event count of 500 for incident ID: " ++ id))
    else ok tt

no_room :
    (id : Text) (n : ℕ)
    → max_events ≤ n
    → room_for id n ≡ err (fail (codes "reached max event count of 500 for incident ID: " ++ id))
no_room id n h = elim (Bool-cases (leb max_events n)) [
  | inl full ↦ rw full
  | inr room ↦ absurd (ground arith)
]

has_room : (id : Text) (n : ℕ) → n < max_events → room_for id n ≡ ok tt
has_room id n h = elim (Bool-cases (leb max_events n)) [
  | inl full ↦ absurd (ground arith)
  | inr room ↦ rw room
]

module _ {redis : Redis} where
  marshal-Takes :
      {r : Result Text} {t : Text} (f : Error → Error) (d : Dataset)
      → r ≡ ok t
      → Takes redis (or_error (lift r) f) d (ok t) d
  marshal-Takes {r} f d h =
      Takes-or_error f (subst (λ q. Takes redis (lift r) d q d) h (Takes-lift r d))

  check_room-Takes :
      (id : Text) (d : Dataset) (events : List Scored)
      → as_scores (d.values id) ≡ some events
      → Takes redis (check_room redis id false) d (room_for id (length events)) d
  unfolding check_room
  check_room-Takes id d events stored =
      Takes-bind _ (Takes-call _ (zrange_all-Replies redis id d events stored)) (
        rw (length-map events (λ (a : Scored). a.member))
          (by_count (leb max_events (length events))))
    where
      by_count :
          (b : Bool)
          → Takes redis
              (if b
                then raise (fail (codes "reached max event count of 500 for incident ID: " ++ id))
                else pure tt)
              d
              (if b
                then err (fail (codes "reached max event count of 500 for incident ID: " ++ id))
                else ok tt)
              d
      by_count true = Takes-raise _ d
      by_count false = Takes-pure tt d

  expire-Takes :
      (k : Text) (t : ℤ) (d : Dataset) (f : Error → Error)
      → d.values k ≢ absent
      → ltb_ℤ d.clock t ≡ true
      → Takes redis (or_error (call (redis.expire_at k t)) f) d (ok tt) (set_deadline k (some t) d)
  expire-Takes k t d f here soon =
      Takes-or_error f (Takes-call _ (expire_at_later redis k t d here soon))

  zadd-Takes :
      (k m : Text) (x : ℤ) (d : Dataset) (l : List Scored) (f : Error → Error)
      → as_scores (d.values k) ≡ some l
      → Takes redis
          (or_error (call (redis.zadd k x m)) f)
          d
          (ok tt)
          (put k (scores (add_scored m x l)) d)
  zadd-Takes k m x d l f h = Takes-or_error f (Takes-call _ (zadd-Replies redis k x m d l h))

  sadd-Takes :
      (k m : Text) (d : Dataset) (l : List Text) (f : Error → Error)
      → as_members (d.values k) ≡ some l
      → Takes redis
          (or_error (call (redis.sadd k m)) f)
          d
          (ok tt)
          (put k (members (add_member m l)) d)
  sadd-Takes k m d l f h = Takes-or_error f (Takes-call _ (sadd-Replies redis k m d l h))

  -- With the server up, an incident that holds 500 events or more takes no further one: the error
  -- says so, and nothing changes.
  pub add_event-full :
      (codec : EventCodec) (score later : ℤ) (id : Text) (event : PodEvent) (d : Dataset)
      (events : List Scored)
      → as_scores (d.values id) ≡ some events
      → max_events ≤ length events
      → Takes redis
          (add_event_to_incident redis codec score later id event false)
          d
          (err (fail (codes "reached max event count of 500 for incident ID: " ++ id)))
          d
  unfolding add_event_to_incident
  add_event-full codec score later id event d events stored full = Takes-bind_err _ (
      subst (λ r. Takes redis (check_room redis id false) d r d) (no_room id (length events) full)
        (check_room-Takes id d events stored))

  -- With the server up, an event of an incident that holds fewer than 500 events is stored with
  -- its pod, and nothing else changes: no deadline is set and nothing enters the work queue.
  pub add_event-old :
      (codec : EventCodec) (score later : ℤ) (inc : Incident) (event : PodEvent) (event_json : Text)
      (d : Dataset) (events : List Scored) (pods : List Text)
      → codec.marshal (with_id (to_string inc) score event) ≡ ok event_json
      → as_scores (d.values (to_string inc)) ≡ some events
      → as_members (d.values (pods_key (to_string inc))) ≡ some pods
      → length events < max_events
      → Takes redis
          (add_event_to_incident redis codec score later (to_string inc) event false)
          d
          (ok tt)
          (with_event score (to_string inc) event_json event.pod_name events pods d)
  unfolding add_event_to_incident
  add_event-old codec score later inc event event_json d events pods encoded stored affected room =
      Takes-bind _
        (subst (λ r. Takes redis (check_room redis (to_string inc) false) d r d)
          (has_room (to_string inc) (length events) room)
          (check_room-Takes (to_string inc) d events stored))
        (Takes-bind _ (marshal-Takes _ d encoded) (
          Takes-bind _ (zadd-Takes (to_string inc) event_json score d events _ stored) (
            Takes-bind _ (Takes-pure tt _) (
              Takes-bind _
                (sadd-Takes (pods_key (to_string inc)) event.pod_name _ pods _
                  (rw (id-ne-pods inc (to_string inc)) affected))
                (Takes-pure tt _)))))

  -- With the server up, the first event of a well-formed incident of which nothing is stored, and
  -- which began less than two weeks ago, is stored with its pod; both sets of the incident expire
  -- two weeks after the incident began, and the new incident waits to be sent.
  pub add_event-new :
      (codec : EventCodec) (score later : ℤ) (inc : Incident) (event : PodEvent) (event_json : Text)
      (d : Dataset) (pods : List Text) (queue : List Scored)
      → IsWellFormed inc
      → codec.marshal (with_id (to_string inc) score event) ≡ ok event_json
      → d.values (to_string inc) ≡ absent
      → as_members (d.values (pods_key (to_string inc))) ≡ some pods
      → as_scores (d.values pending_key) ≡ some queue
      → ltb_ℤ d.clock (expiry inc) ≡ true
      → Takes redis
          (add_event_to_incident redis codec score later (to_string inc) event true)
          d
          (ok tt)
          (announced score later inc event_json event.pod_name pods queue d)
  unfolding add_event_to_incident
  add_event-new codec score later inc event event_json d pods queue wf encoded fresh affected
        waiting soon =
      let id = to_string inc in
      Takes-bind _ (Takes-pure tt d) (
        Takes-bind _ (marshal-Takes _ d encoded) (
          Takes-bind _ (zadd-Takes id event_json score d [] _ (ap as_scores fresh)) (
            Takes-bind _
              (Takes-bind _ (object_of-Takes inc _ wf) (
                expire-Takes id (expiry inc) _ _
                  (put-ne-absent id (scores (add_scored event_json score [])) d
                    (scores-ne-absent refl))
                  soon))
              (Takes-bind _
                (sadd-Takes (pods_key id) event.pod_name _ pods _ (rw (id-ne-pods inc id) affected))
                (Takes-bind _ (object_of-Takes inc _ wf) (
                  Takes-bind _
                    (expire-Takes (pods_key id) (expiry inc) _ _
                      (put-ne-absent (pods_key id) (members (add_member event.pod_name pods))
                        (set_deadline id (some (expiry inc))
                          (put id (scores (add_scored event_json score [])) d))
                        (members-ne-absent _))
                      soon)
                    (Takes-bind _
                      (Takes-attempt (
                        append-Takes later _ _ queue
                          (rw (pods-ne-pending id, id-ne-pending inc) waiting)))
                      (Takes-pure tt _))))))))
