-- ===== src/Client/Resolve/Details.antt =====
-- What `GetIncidentDetails` reports.
use porter_agent.Base.{◌≡◌, refl, List, [], ◌∷◌, ◌++◌, subst, true, some, ap}
use porter_agent.Redis.Action.{or_error, lift}
use porter_agent.Incident
use porter_agent.Models
use porter_agent.Redis.{Redis}
use porter_agent.Redis.Takes.{
  Takes, Takes-bind, Takes-call, Takes-or_error, Takes-pure, Takes-lift, Takes-raise,
}
use porter_agent.Client.Events.Latest.{get_latest-Takes}
use porter_agent.Client.Resolve.Lifecycle.{incident_exists-Takes, is_incident_resolved-Takes}
use porter_agent.Client.Resolve.{get_incident_details, details, is_empty, deref}
use porter_agent.Text.{Text, contains, codes}
use porter_agent.Models.{EventCodec, PodEvent}
use porter_agent.Result.{Error, Result, fail, error_text, ok, err}
use porter_agent.Redis.Keyspace.{
  Dataset, absent, Scored, scores, as_members, scores-ne-absent, as_scores,
}
use porter_agent.Incident.RoundTrip.{IsWellFormed, new_incident_from_string-to_string}
use porter_agent.Text.Search.{contains-append}
use porter_agent.Incident.{to_string}
use porter_agent.Client.Keys.{pods_key}
use porter_agent.Redis.Laws.{exists_absent}

-- The error for an incident that does not exist.
abbrev pub missing_details : Text → Error
missing_details id = fail (codes "trying to get details of non-existent incident with ID: " ++ id)

-- The consumer recognises this error by its text.
pub missing_details-text :
    (id : Text) → contains (error_text (missing_details id)) (codes "non-existent incident") ≡ true
missing_details-text id =
    contains-append (codes "trying to get details of ") (codes "non-existent incident")
      (codes " with ID: " ++ id)

-- The report of an incident by its latest event and the pods that are affected. What the incident is
-- named and when it began is in its identifier; chart and time of change are those of the event.
abbrev pub report_of : Incident.Incident → PodEvent → List Text → Models.Incident
report_of inc latest [] = record {
  id = to_string inc;
  release_name = inc.release_name;
  chart_name = latest.chart_name;
  created_at = inc.timestamp;
  updated_at = latest.timestamp;
  latest_state = codes "RESOLVED";
  latest_reason = codes "Resolved";
  latest_message = codes "This incident has been resolved";
}
report_of inc latest (pod ∷ pods) = record {
  id = to_string inc;
  release_name = inc.release_name;
  chart_name = latest.chart_name;
  created_at = inc.timestamp;
  updated_at = latest.timestamp;
  latest_state = codes "ONGOING";
  latest_reason = latest.reason;
  latest_message = latest.message;
}

details-report_of :
    (inc : Incident.Incident) (latest : PodEvent) (pods : List Text)
    → details (to_string inc) inc (is_empty pods) latest ≡ report_of inc latest pods
details-report_of inc latest [] = refl
details-report_of inc latest (pod ∷ pods) = refl

module _ {redis : Redis} (codec : EventCodec) where
  -- With the server up, an incident that does not exist is reported as such, and nothing changes.
  pub get_details-missing :
      (id : Text) (d : Dataset)
      → d.values id ≡ absent
      → Takes redis (get_incident_details redis codec id) d (err (missing_details id)) d
  unfolding get_incident_details
  get_details-missing id d h =
      Takes-bind _
        (Takes-bind _ (Takes-or_error _ (Takes-call _ (exists_absent redis id d h)))
          (Takes-pure _ d))
        (Takes-raise _ d)

  lift-Takes :
      {A : Type 0} {r : Result A} {a : A} (f : Error → Error) (d : Dataset)
      → r ≡ ok a
      → Takes redis (or_error (lift r) f) d (ok a) d
  lift-Takes {r} f d h =
      Takes-or_error f (subst (λ q. Takes redis (lift r) d q d) h (Takes-lift r d))

  -- With the server up, an incident whose identifier is well formed and whose last stored event can
  -- be decoded is reported as resolved if no pod is in its set, and otherwise as ongoing with the
  -- reason and the message of that event; nothing changes.
  pub get_details-Takes :
      (inc : Incident.Incident) (older : List Scored) (a : Scored) (latest : PodEvent)
      (pods : List Text) (d : Dataset)
      → IsWellFormed inc
      → d.values (to_string inc) ≡ scores (older ++ a ∷ [])
      → codec.unmarshal a.member ≡ ok latest
      → as_members (d.values (pods_key (to_string inc))) ≡ some pods
      → Takes redis
          (get_incident_details redis codec (to_string inc))
          d
          (ok (report_of inc latest pods))
          d
  unfolding get_incident_details deref
  get_details-Takes inc older a latest pods d wf stored decoded affected =
      subst (λ r. Takes redis (get_incident_details redis codec (to_string inc)) d (ok r) d)
        (details-report_of inc latest pods)
        (Takes-bind _ (incident_exists-Takes (to_string inc) d (scores-ne-absent stored)) (
          Takes-bind _ (lift-Takes _ d (new_incident_from_string-to_string inc wf)) (
            Takes-bind _
              (Takes-or_error _ (is_incident_resolved-Takes (to_string inc) d pods affected))
              (Takes-bind _
                (Takes-or_error _ (
                  get_latest-Takes codec (to_string inc) older a latest d (ap as_scores stored)
                    decoded))
                (Takes-bind _ (Takes-pure latest d) (Takes-pure _ d))))))
