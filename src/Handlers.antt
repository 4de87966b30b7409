-- ===== src/Handlers.antt =====
-- The handlers of the HTTP server (`pkg/server/handlers/incidents.go`): the status and the body of the
-- answer. The parameters of the path are arguments.
pub mod Answers
pub mod Safe
pub mod Routes
pub mod Agreement
mod Tests
use porter_agent.Redis.Action.{
  ◌>>=◌, ◌>>◌, Attempt, Action, attempt, done, done, result_of, pure, lift, error, error,
}
use porter_agent.Base.{
  ℕ, ℤ, List, [], ◌∷◌, Option, none, some, Bool, true, false, not, if◌then◌else◌,
}
use porter_agent.Models
use porter_agent.Incident
use porter_agent.Text.{codes, Text, contains, colon}
use porter_agent.Models.{PodEvent, EventCodec}
use porter_agent.Redis.{Redis}
use porter_agent.Result.{Result, ok, panic, error_text}
use porter_agent.Client.Listing.{
  get_all_incidents, get_incidents_by_release_namespace, get_incident_events_by_id,
}
use porter_agent.Client.Events.{incident_exists, get_latest_event_for_incident}
use porter_agent.Client.Logs.{get_logs}
use porter_agent.Client.Resolve.{get_incident_details, is_incident_resolved}
use porter_agent.Text.Split.{split}
use porter_agent.Incident.{new_incident_from_string}

-- What is said of an incident beside its events.
pub record IncidentEvents : Type 0 where
  pub incident_id : Text
  pub release_name : Text
  pub chart_name : Text
  pub created_at : ℤ
  pub updated_at : ℤ
  pub latest_state : Text
  pub latest_reason : Text
  pub latest_message : Text
  pub events : List PodEvent

-- The bodies, one constructor for each set of keys.
pub data Body : Type 0 where
  error_body : Text → Body
  incidents : List Models.Incident → Body
  incident_events : IncidentEvents → Body
  contents : Text → Body

pub record Answer : Type 0 where
  pub status : ℕ
  pub body : Body

abbrev pub internal_error : Answer
internal_error = record { status = 500; body = error_body (codes "internal server error") }

abbrev pub okay : Body → Answer
okay body = record { status = 200; body = body }

-- An error of the client is answered by 500.
module _ {W A : Type 0} where
  abbrev or_500_on : Attempt A → (A → Action W Answer) → Action W Answer
  or_500_on (done a) f = f a
  or_500_on (error e) f = pure internal_error

  unfoldable pub or_500 : Action W A → (A → Action W Answer) → Action W Answer
  or_500 m f = attempt m >>= λ r. or_500_on r f

-- strings.Split(incidentID, ":")[1]
abbrev second_segment : List Text → Result Text
second_segment (a ∷ b ∷ segments) = ok b
second_segment _ = panic

-- The fields of the latest event, which may be nil.
abbrev event_behind : Option PodEvent → Result PodEvent
event_behind none = panic
event_behind (some event) = ok event

abbrev logs_answer : Attempt Text → Answer
logs_answer (done logs) = okay (contents logs)
logs_answer (error e) =
    if contains (error_text e) (codes "no such logs")
    then record { status = 404; body = error_body (codes "no such logs") }
    else internal_error

module _ (redis : Redis) where
  open redis use {World}

  unfoldable pub handle_logs : Text → Action World Answer
  handle_logs log_id = do logs ← attempt (get_logs redis log_id); pure (logs_answer logs)

module _ (redis : Redis) (codec : EventCodec) where
  open redis use {World}

  -- The loop over the identifiers, which ends at the first error.
  pub all_details : List Text → Action World (List Models.Incident)
  all_details [] = pure []
  all_details (id ∷ ids) = do
    incident ← get_incident_details redis codec id
    found ← all_details ids
    pure (incident ∷ found)

  unfoldable pub handle_all_incidents : Action World Answer
  unfolding all_details
  handle_all_incidents =
      or_500 (get_all_incidents redis)
        λ ids. or_500 (all_details ids) λ found. pure (okay (incidents found))

  unfoldable pub handle_incidents_by_release_namespace : Text → Text → Action World Answer
  unfolding all_details
  handle_incidents_by_release_namespace release_name namespace =
      or_500 (get_incidents_by_release_namespace redis release_name namespace)
        λ ids. or_500 (all_details ids) λ found. pure (okay (incidents found))

  events_answer :
      Text → List PodEvent → Bool → Option PodEvent → Incident.Incident → Action World Answer
  events_answer id events resolved latest incident = do
    release_name ← lift (second_segment (split id colon))
    event ← lift (event_behind latest)
    pure (
        okay (
          incident_events (record {
            incident_id = id;
            release_name = release_name;
            chart_name = event.chart_name;
            created_at = incident.timestamp;
            updated_at = event.timestamp;
            latest_state = if resolved then codes "RESOLVED" else codes "ONGOING";
            latest_reason = event.reason;
            latest_message = event.message;
            events = events;
          })))

  unfoldable pub handle_incident_events_by_id : Text → Action World Answer
  unfolding events_answer
  handle_incident_events_by_id id = or_500 (incident_exists redis id) λ exists.
      if not exists
      then pure (record { status = 404; body = error_body (codes "invalid incident ID") })
      else or_500 (get_incident_events_by_id redis codec id) λ events.
        or_500 (is_incident_resolved redis id) λ resolved.
          or_500 (get_latest_event_for_incident redis codec id) λ latest.
            or_500 (lift (new_incident_from_string id)) (events_answer id events resolved latest)
