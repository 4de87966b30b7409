-- ===== src/Client/Listing.antt =====
-- Lists of incidents, pods and events (`pkg/redis/client.go`).
pub mod Sorted
pub mod Panics
pub mod Safe
use porter_agent.Base.{ℤ, Bool, true, false, List, [], ◌∷◌, ◌++◌, ltb_ℤ, pos, negsuc}
use porter_agent.Text.{Text, codes, colon}
use porter_agent.Result
use porter_agent.Result.{Error, Result, ok, err, panic, fail}
use porter_agent.Incident.{Incident, new_incident_from_string}
use porter_agent.Models.{PodEvent, EventCodec}
use porter_agent.Redis.{Redis}
use porter_agent.Redis.Keyspace.{Scored}
use porter_agent.Redis.Action.{Action, Attempt, done, error, pure, call, lift, attempt, ◌>>=◌}
use porter_agent.Client.Keys.{pods_key}
use porter_agent.Client.Events.{read_event}

-- obj.GetTimestamp() of `obj, _ := utils.NewIncidentFromString(id)`, where nil panics.
abbrev pub timestamp_of : Result Incident → Result ℤ
timestamp_of (ok incident) = ok incident.timestamp
timestamp_of (err e) = panic
timestamp_of panic = panic

-- The comparison of the sort: `a` is newer than `b`.
unfoldable pub newer : Text → Text → Result Bool
newer a b =
    Result.◌>>=◌ (timestamp_of (new_incident_from_string a))
      λ s. Result.◌>>=◌ (timestamp_of (new_incident_from_string b)) λ t. ok (ltb_ℤ t s)

place : Text → Text → List Text → Result (List Text) → Bool → Result (List Text)
place a b l rest true = Result.◌>>=◌ rest λ r. ok (b ∷ r)
place a b l rest false = ok (a ∷ b ∷ l)

-- Put `a` in front of the first identifier that is not newer.
pub insert_incident : Text → List Text → Result (List Text)
unfolding place
insert_incident a [] = ok (a ∷ [])
insert_incident a (b ∷ l) =
    let rest = insert_incident a l in Result.◌>>=◌ (newer b a) λ c. place a b l rest c

-- sort.SliceStable, the newest first. The result of a stable sort does not depend on the algorithm;
-- every algorithm compares each of two or more identifiers, so it panics where this one does.
unfoldable pub sort_incidents : List Text → Result (List Text)
sort_incidents [] = ok []
sort_incidents (a ∷ l) = Result.◌>>=◌ (sort_incidents l) λ s. insert_incident a s

module _ (redis : Redis) where
  open redis use {World}

  unfoldable pub get_all_incidents : Action World (List Text)
  get_all_incidents = do
    incidents ← call (redis.keys (codes "incident:*:*:*"))
    lift (sort_incidents incidents)

  unfoldable pub get_incidents_by_release_namespace : Text → Text → Action World (List Text)
  get_incidents_by_release_namespace release_name namespace = do
    incidents ←
        call
          (redis.keys (codes "incident:" ++ (release_name ++ (colon ∷ (namespace ++ codes ":*")))))
    lift (sort_incidents incidents)

  abbrev keep_found : Attempt Text → List Text → List Text
  keep_found (done id) ids = id ∷ ids
  keep_found (error e) ids = ids

  -- The loop over the keys: a key whose value cannot be read is passed over.
  pub read_active : List Text → Action World (List Text)
  read_active [] = pure []
  read_active (incident ∷ incidents) = do
    id ← attempt (call (redis.get incident))
    ids ← read_active incidents
    pure (keep_found id ids)

  unfoldable pub get_all_active_incidents : Action World (List Text)
  unfolding read_active
  get_all_active_incidents = do
    incidents ← call (redis.keys (codes "active_incident:*:*"))
    read_active incidents

  unfoldable pub get_pods_for_incident : Text → Action World (List Text)
  get_pods_for_incident incident_id = call (redis.smembers (pods_key incident_id))

module _ (redis : Redis) (codec : EventCodec) where
  open redis use {World}

  -- The loop over the payload: the first item that cannot be read ends it.
  unfoldable pub read_events : Text → List Scored → Action World (List PodEvent)
  unfolding read_event
  read_events incident_id [] = pure []
  read_events incident_id (a ∷ payload) = do
    event ← read_event redis codec incident_id a
    events ← read_events incident_id payload
    pure (event ∷ events)

  unfoldable pub get_incident_events_by_id : Text → Action World (List PodEvent)
  unfolding read_events
  get_incident_events_by_id incident_id = do
    payload ← call (redis.zrange_rev incident_id (pos 0) (negsuc 0))
    read_events incident_id payload
