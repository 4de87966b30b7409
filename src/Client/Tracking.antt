-- ===== src/Client/Tracking.antt =====
-- What the Redis client promises of one incident (`pkg/redis/client.go`), without keys and commands: the
-- specification of AddEventToIncident, SetPodResolved and SetJobIncidentResolved together.
pub mod Refines
use porter_agent.Redis.Action.{◌>>=◌, ◌>>◌}
use porter_agent.Base.{◌≡◌, List, ℤ, [], ◌∷◌, if◌then◌else◌, Bool, false, leb, Option, length, ◌++◌}
use porter_agent.Text.{Text, codes}
use porter_agent.Models.{PodEvent, EventCodec}
use porter_agent.Redis.{Redis}
use porter_agent.Redis.Keyspace.{Scored, add_scored, add_member, remove_member}
use porter_agent.Redis.Action.{Action, Attempt, pure, attempt}
use porter_agent.Client.Events.{max_events, with_id, add_event_to_incident}
use porter_agent.Client.Resolve.{set_pod_resolved, set_job_incident_resolved}

-- An incident as its callers see it: its events, the pods that are affected, whether it is the active
-- one of its release, and the notifications that wait to be sent.
pub record Tracked : Type 0 where
  pub events : List Scored
  pub pods : List Text
  pub active : Bool
  pub notices : List Scored

-- What is reported of a pod of the incident: it fails again, it has recovered, or its job has succeeded.
pub data Report : Type 0 where
  fails : (score later : ℤ) (event : PodEvent) → Report
  recovers : (now : ℤ) (pod : Text) → Report
  succeeds : (now : ℤ) → Report

-- The incident is over, and its end is announced.
abbrev pub over : Text → ℤ → Tracked → Tracked
over id now s = record s {
  pods = [];
  active = false;
  notices = add_scored (codes "resolved:" ++ id) now s.notices;
}

abbrev pub recovered : Text → ℤ → Tracked → List Text → Tracked
recovered id now s [] = over id now s
recovered id now s (pod ∷ pods) = record s { pods = pod ∷ pods }

module _ (text_of_event : PodEvent → Text) (id : Text) where
  -- A full incident takes no further event; an incident without affected pods is over.
  pub apply : Report → Tracked → Tracked
  apply (fails score later event) s = if leb max_events (length s.events) then s else record s {
    events = add_scored (text_of_event (with_id id score event)) score s.events;
    pods = add_member event.pod_name s.pods;
  }
  apply (recovers now pod) s = recovered id now s (remove_member pod s.pods)
  apply (succeeds now) s = over id now s

  pub apply_all : List Report → Tracked → Tracked
  unfolding apply
  apply_all [] s = s
  apply_all (report ∷ reports) s = apply_all reports (apply report s)

module _ (redis : Redis) (codec : EventCodec) where
  open redis use {World}

  -- The method of the client for a report, whose error the caller looks at.
  pub perform : Text → Report → Action World (Attempt (Unit {0}))
  perform id (fails score later event) =
      attempt (add_event_to_incident redis codec score later id event false)
  perform id (recovers now pod) = attempt (set_pod_resolved redis now pod id)
  perform id (succeeds now) = attempt (set_job_incident_resolved redis now id)

  pub perform_all : Text → List Report → Action World (Unit {0})
  unfolding perform
  perform_all id [] = pure tt
  perform_all id (report ∷ reports) = do perform id report; perform_all id reports
