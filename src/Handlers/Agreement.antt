-- ===== src/Handlers/Agreement.antt =====
-- The handler of one incident (`pkg/server/handlers/incidents.go`) and GetIncidentDetails
-- (`pkg/redis/client.go`), which the consumer posts, put an incident together separately.
use porter_agent.Incident
use porter_agent.Models
use mathlib.Core.List.{reverse, []}
use porter_agent.Base.{◌≡◌, List, ◌≢◌, ◌∷◌, ◌++◌, refl, some}
use porter_agent.Handlers.{IncidentEvents, handle_incident_events_by_id, incident_events}
use porter_agent.Models.{PodEvent, EventCodec}
use porter_agent.Text.{codes, Text}
use porter_agent.Redis.{Redis}
use porter_agent.Redis.Keyspace.{Scored, Dataset, scores, as_members}
use porter_agent.Incident.{to_string}
use porter_agent.Client.Resolve.Details.{report_of, get_details-Takes}
use porter_agent.Handlers.Answers.{state_of, Decodes, handle_incident_events-stored}
use porter_agent.Incident.RoundTrip.{IsWellFormed}
use porter_agent.Client.Keys.{pods_key}
use porter_agent.Redis.Takes.{Takes}
use porter_agent.Result.{ok}
use porter_agent.Client.Resolve.{get_incident_details}

-- What both say of an incident. The reason and the message are compared while it is ongoing.
pub record Agree (e : IncidentEvents) (r : Models.Incident) : Type 0 where
  pub id : e.incident_id ≡ r.id
  pub release_name : e.release_name ≡ r.release_name
  pub chart_name : e.chart_name ≡ r.chart_name
  pub created_at : e.created_at ≡ r.created_at
  pub updated_at : e.updated_at ≡ r.updated_at
  pub latest_state : e.latest_state ≡ r.latest_state
  pub ongoing :
      r.latest_state ≡ codes "ONGOING"
      → (e.latest_reason ≡ r.latest_reason) × (e.latest_message ≡ r.latest_message)

abbrev answered_for : Incident.Incident → PodEvent → List PodEvent → List Text → IncidentEvents
answered_for inc latest events pods = record {
  incident_id = to_string inc;
  release_name = inc.release_name;
  chart_name = latest.chart_name;
  created_at = inc.timestamp;
  updated_at = latest.timestamp;
  latest_state = state_of pods;
  latest_reason = latest.reason;
  latest_message = latest.message;
  events = latest ∷ events;
}

resolved-ne-ongoing : codes "RESOLVED" ≢ codes "ONGOING"
resolved-ne-ongoing e = cc

answered-Agree :
    (inc : Incident.Incident) (latest : PodEvent) (events : List PodEvent) (pods : List Text)
    → Agree (answered_for inc latest events pods) (report_of inc latest pods)
answered-Agree inc latest events [] = record {
  id = refl;
  release_name = refl;
  chart_name = refl;
  created_at = refl;
  updated_at = refl;
  latest_state = refl;
  ongoing = λ e. absurd (resolved-ne-ongoing e);
}
answered-Agree inc latest events (pod ∷ pods) = record {
  id = refl;
  release_name = refl;
  chart_name = refl;
  created_at = refl;
  updated_at = refl;
  latest_state = refl;
  ongoing = λ e. (refl, refl);
}

-- With the server up, for a well-formed incident whose stored events can all be decoded, the handler
-- answers with 200 and GetIncidentDetails succeeds, neither changes anything, and they agree on the
-- identifier, the release, the chart, the two times and the state, and while the incident is ongoing on
-- the reason and the message as well.
pub handle_incident_events-get_incident_details :
    {redis : Redis} (codec : EventCodec) (inc : Incident.Incident) (older : List Scored)
    (a : Scored) (latest : PodEvent) (events : List PodEvent) (pods : List Text) (d : Dataset)
    → IsWellFormed inc
    → d.values (to_string inc) ≡ scores (older ++ a ∷ [])
    → Decodes codec (a ∷ reverse older) (latest ∷ events)
    → as_members (d.values (pods_key (to_string inc))) ≡ some pods
    → (e : IncidentEvents) × (r : Models.Incident) × Takes redis
        (handle_incident_events_by_id redis codec (to_string inc))
        d
        (ok (record { status = 200; body = incident_events e }))
        d
      × Takes redis (get_incident_details redis codec (to_string inc)) d (ok r) d
      × Agree e r
handle_incident_events-get_incident_details codec inc older a latest events pods d wf stored decoded
      affected =
    (
      answered_for inc latest events pods,
      report_of inc latest pods,
      handle_incident_events-stored codec inc older a latest events pods d wf stored decoded
          affected,
      get_details-Takes codec inc older a latest pods d wf stored decoded.0 affected,
      answered-Agree inc latest events pods,
    )
