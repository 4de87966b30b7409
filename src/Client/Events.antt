-- ===== src/Client/Events.antt =====
-- The events of an incident (`pkg/redis/client.go`). `score` and `later` are the two readings of the
-- clock in `AddEventToIncident`.
pub mod Storing
pub mod Latest
pub mod Safe
use porter_agent.Base.{
  ℤ, Bool, true, false, not, List, [], ◌∷◌, ◌++◌, Option, none, some, ◌==◌, leb, length,
  if◌then◌else◌, ℕ, pos, negsuc,
}
use porter_agent.Text.{Text, codes, colon}
use porter_agent.Text.Decimal.{format_int}
use porter_agent.Result.{Error, Result, ok, err, panic, fail, wrap, error_text}
use porter_agent.Incident.{Incident, new_incident_from_string, expiry}
use porter_agent.Models.{PodEvent, EventCodec}
use porter_agent.Redis.{Redis}
use porter_agent.Redis.Keyspace.{Scored}
use porter_agent.Redis.Action.{
  Action, pure, raise, crash, call, lift, or_error, attempt, ◌>>=◌, ◌>>◌,
}
use porter_agent.Client.Keys.{pods_key}
use porter_agent.Client.Queue.{append_to_notify_work_queue}

abbrev pub max_events : ℕ
max_events = 500

-- "%f" of a score, which is a whole number of seconds.
abbrev pub format_score : ℤ → Text
format_score score = format_int score ++ codes ".000000"

abbrev pub unmarshal_error : Text → ℤ → Error → Error
unmarshal_error incident_id score e = fail (
    codes "error unmarshalling event to json for incident ID: "
    ++ (incident_id
        ++ (codes " with score: " ++ (format_score score ++ (codes ". Error: " ++ error_text e)))))

-- event.EventID = fmt.Sprintf("%s:%d", incidentID, score)
abbrev pub with_id : Text → ℤ → PodEvent → PodEvent
with_id incident_id score event = record event {
  event_id = incident_id ++ (colon ∷ format_int score);
}

-- `incidentObj, _ := utils.NewIncidentFromString(incidentID)` and a method of `incidentObj`, which is
-- nil after an error.
unfoldable pub object_of : {W : Type 0} → Result Incident → Action W Incident
object_of (ok incident) = pure incident
object_of (err e) = crash
object_of panic = crash

module _ (redis : Redis) where
  open redis use {World}

  unfoldable pub incident_exists : Text → Action World Bool
  incident_exists incident = do
    val ←
        or_error (call (redis.exists incident))
          (wrap (codes "error checking if incident with ID: ") incident (codes " exists. Error: "))
    pure (not (val == 0))

  check_room : Text → Bool → Action World (Unit {0})
  check_room incident_id true = pure tt
  check_room incident_id false = do
    events ← call (redis.zrange incident_id (pos 0) (negsuc 0))
    if leb max_events (length events)
        then raise (fail (codes "reached max event count of 500 for incident ID: " ++ incident_id))
        else pure tt

  expire_incident : Text → Bool → Action World (Unit {0})
  expire_incident incident_id false = pure tt
  expire_incident incident_id true = do
    incident ← object_of (new_incident_from_string incident_id)
    or_error (call (redis.expire_at incident_id (expiry incident))) (
        wrap (codes "error setting expiration to incident with ID: ") incident_id
          (codes ". Error: "))

  -- The error of the work queue is dropped.
  announce : ℤ → Text → Bool → Action World (Unit {0})
  announce later incident_id false = pure tt
  announce later incident_id true = do
    incident ← object_of (new_incident_from_string incident_id)
    or_error (call (redis.expire_at (pods_key incident_id) (expiry incident))) (
        wrap (codes "error setting expiration for pod set for incident ID: ") incident_id
          (codes ". Error: "))
    attempt (append_to_notify_work_queue redis later (codes "new:" ++ incident_id))
    pure tt

module _ (redis : Redis) (codec : EventCodec) where
  open redis use {World}

  unfoldable pub read_event : Text → Scored → Action World PodEvent
  read_event incident_id a =
      or_error (lift (codec.unmarshal a.member)) (unmarshal_error incident_id a.score)

  latest_of : Text → List Scored → Action World (Option PodEvent)
  latest_of incident_id [] = pure none
  latest_of incident_id (a ∷ rest) = do event ← read_event incident_id a; pure (some event)

  -- `none` is the nil pointer: the incident has no event.
  unfoldable pub get_latest_event_for_incident : Text → Action World (Option PodEvent)
  unfolding latest_of read_event
  get_latest_event_for_incident incident_id = do
    items ← call (redis.zrange_rev incident_id (pos 0) (negsuc 0))
    latest_of incident_id items

  unfoldable pub add_event_to_incident : ℤ → ℤ → Text → PodEvent → Bool → Action World (Unit {0})
  unfolding check_room expire_incident announce append_to_notify_work_queue
  add_event_to_incident score later incident_id event is_new = do
    check_room redis incident_id is_new
    let stored = with_id incident_id score event
    event_json ← or_error (lift (codec.marshal stored)) (
        wrap (codes "error marshalling to JSON with event ID: ") stored.event_id
          (codes ". Error: "))
    or_error (call (redis.zadd incident_id score event_json)) (
        wrap (codes "error adding new pod event to incident with ID: ") incident_id
          (codes ". Error: "))
    expire_incident redis incident_id is_new
    or_error (call (redis.sadd (pods_key incident_id) event.pod_name)) (
        wrap (codes "error adding new pod: ")
          (event.pod_name ++ (codes " to pod set with incident ID: " ++ incident_id))
          (codes ". Error: "))
    announce redis later incident_id is_new
