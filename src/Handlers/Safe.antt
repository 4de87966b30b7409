-- ===== src/Handlers/Safe.antt =====
-- The handlers in any world and for any parameters of the path: they keep what each key holds, and
-- never panic.
use porter_agent.Incident
use porter_agent.Base.{Option, ◌≢◌, none, List, Bool, some, ◌∷◌, refl, not}
use porter_agent.Redis.{Redis}
use porter_agent.Text.{Text, colon}
use porter_agent.Handlers.{
  or_500, handle_logs, second_segment, all_details, handle_all_incidents,
  handle_incidents_by_release_namespace, events_answer, handle_incident_events_by_id, Answer,
  event_behind, or_500_on, done, error,
}
use porter_agent.Models.{EventCodec, PodEvent, NeverPanics}
use porter_agent.Client.Typing.{IsIncident, IsSound}
use porter_agent.Redis.Keyspace.{Dataset, Scored}
use porter_agent.Redis.Action.{Action, Attempt}
use porter_agent.Redis.Ensures.{
  Ensures, Anything, Ensures-bind, Ensures-attempt, Ensures-pure, IfDone, Ensures-weaken,
  Ensures-lift, Ensures-if, Ensures-given,
}
use porter_agent.Client.Listing.{read_events, get_incident_events_by_id}
use porter_agent.Text.Split.{split}
use porter_agent.Result.{panic}
use porter_agent.Client.Listing.Safe.{get_all_incidents-Ensures, by_release-Ensures}
use porter_agent.Client.Typing.Calls.{zrange_rev_all-Ensures}
use porter_agent.Incident.RoundTrip.{split-of_incident, new_incident_from_string-ne-panic}
use porter_agent.Client.Events.Safe.{
  incident_exists-Ensures, read_event-Ensures, get_latest-Ensures,
}
use porter_agent.Client.Logs.Safe.{get_logs-Ensures}
use porter_agent.Client.Resolve.Safe.{
  get_incident_details-Ensures, is_incident_resolved-Ensures, not-false,
}
use mathlib.Core.List.{[]}

module _ {redis : Redis} where
  or_500-Ensures :
      {P : Dataset → Type 0} {A : Type 0} {Q : A → Dataset → Type 0} {m : Action redis.World A}
      (f : A → Action redis.World Answer)
      → Ensures redis IsSound P m Q
      → ((a : A) → Ensures redis IsSound (Q a) (f a) (λ _. Anything))
      → Ensures redis IsSound P (or_500 m f) (λ _. Anything)
  unfolding or_500
  or_500-Ensures {A} {Q} f h k = Ensures-bind (Ensures-attempt h) by_outcome
    where
      by_outcome :
          (r : Attempt A) → Ensures redis IsSound (IfDone Q r) (or_500_on r f) (λ _. Anything)
      by_outcome (done a) = k a
      by_outcome (error e) = Ensures-pure _ λ d p. tt

  pub handle_logs-Ensures :
      {P : Dataset → Type 0} (log_id : Text)
      → Ensures redis IsSound P (handle_logs redis log_id) (λ _. Anything)
  unfolding handle_logs
  handle_logs-Ensures log_id =
      Ensures-bind (Ensures-attempt (get_logs-Ensures log_id)) λ logs. Ensures-pure _ λ d p. tt

module _ {redis : Redis} {codec : EventCodec} (returns : NeverPanics codec) where
  all_details-Ensures :
      {P : Dataset → Type 0} (ids : List Text)
      → Ensures redis IsSound P (all_details redis codec ids) (λ _. Anything)
  unfolding all_details
  all_details-Ensures [] = Ensures-pure _ λ d p. tt
  all_details-Ensures (id ∷ ids) =
      Ensures-bind (get_incident_details-Ensures returns id)
        λ incident. Ensures-bind (all_details-Ensures ids) λ found. Ensures-pure _ λ d p. tt

  pub handle_all-Ensures :
      {P : Dataset → Type 0}
      → Ensures redis IsSound P (handle_all_incidents redis codec) (λ _. Anything)
  unfolding handle_all_incidents
  handle_all-Ensures =
      or_500-Ensures _ get_all_incidents-Ensures
        λ ids. or_500-Ensures _ (all_details-Ensures ids) λ found. Ensures-pure _ λ d p. tt

  pub handle_by_release-Ensures :
      {P : Dataset → Type 0} (release_name namespace : Text)
      → Ensures redis IsSound P
          (handle_incidents_by_release_namespace redis codec release_name namespace)
          (λ _. Anything)
  unfolding handle_incidents_by_release_namespace
  handle_by_release-Ensures release_name namespace =
      or_500-Ensures _ (by_release-Ensures release_name namespace)
        λ ids. or_500-Ensures _ (all_details-Ensures ids) λ found. Ensures-pure _ λ d p. tt

  read_events-Ensures :
      {P : Dataset → Type 0} (id : Text) (l : List Scored)
      → Ensures redis IsSound P (read_events redis codec id l) (λ _. P)
  unfolding read_events
  read_events-Ensures id [] = Ensures-pure _ λ d p. p
  read_events-Ensures id (a ∷ l) =
      Ensures-bind (read_event-Ensures returns id a)
        λ event. Ensures-bind (read_events-Ensures id l) λ events. Ensures-pure _ λ d p. p

  events_by_id-Ensures :
      {P : Dataset → Type 0} (id : Text)
      → Ensures redis IsSound P (get_incident_events_by_id redis codec id) (λ _. P)
  unfolding get_incident_events_by_id
  events_by_id-Ensures id =
      Ensures-bind (zrange_rev_all-Ensures redis id)
        λ payload. Ensures-weaken (λ d p. p) (λ a d p. p.1) (read_events-Ensures id payload)

event_behind-ne-panic : (latest : Option PodEvent) → latest ≢ none → event_behind latest ≢ panic
event_behind-ne-panic none h e = h refl
event_behind-ne-panic (some event) h e = cc

-- The second segment of an identifier is there.
second_segment-ne-panic : (id : Text) → IsIncident id → second_segment (split id colon) ≢ panic
second_segment-ne-panic id (inc, e) = let (stamp, q) = split-of_incident id inc e in rw q (λ z. cc)

module _ {redis : Redis} {codec : EventCodec} (returns : NeverPanics codec) where
  events_answer-Ensures :
      (id : Text) (events : List PodEvent) (resolved : Bool) (latest : Option PodEvent)
      (incident : Incident.Incident)
      → IsIncident id
      → latest ≢ none
      → {P : Dataset → Type 0}
      → Ensures redis IsSound P
          (events_answer redis codec id events resolved latest incident)
          (λ _. Anything)
  unfolding events_answer
  events_answer-Ensures id events resolved latest incident h k {P} =
      Ensures-bind {Q = λ _. P} (Ensures-lift _ (second_segment-ne-panic id h) λ d a e p. p) λ name.
        Ensures-bind {Q = λ _. P} (Ensures-lift _ (event_behind-ne-panic latest k) λ d a e p. p)
          λ event. Ensures-pure _ λ d p. tt

  pub handle_events-Ensures :
      {P : Dataset → Type 0} (id : Text)
      → Ensures redis IsSound P (handle_incident_events_by_id redis codec id) (λ _. Anything)
  unfolding handle_incident_events_by_id
  handle_events-Ensures id = or_500-Ensures _ (incident_exists-Ensures id) λ exists.
      Ensures-if (not exists) (λ _. Ensures-pure _ λ d p. tt)
        λ e. or_500-Ensures _ (events_by_id-Ensures returns id) λ events.
          or_500-Ensures _ (is_incident_resolved-Ensures id) λ resolved.
            or_500-Ensures _ (get_latest-Ensures returns id) λ latest.
              or_500-Ensures {Q = λ inc d. IsIncident id × (latest ≢ none)} _
                (Ensures-lift _ (new_incident_from_string-ne-panic id)
                  λ d inc r p. ((inc, r), p.1 (inc, r) (p.0.1 (not-false exists e))))
                λ inc.
                  Ensures-given (λ d i p. p)
                    λ known. events_answer-Ensures id events resolved latest inc known.0 known.1
