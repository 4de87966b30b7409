-- ===== src/Client/Resolve/Safe.antt =====
-- The methods that resolve incidents and tell what is known of them, in any world: they keep what each
-- key holds, and never panic.
use porter_agent.Incident
use porter_agent.Base.{◌≡◌, Bool, not, Option, false, ℤ, true, List, ◌≢◌, refl, none, some, ◌++◌}
use porter_agent.Redis.{Redis}
use porter_agent.Client.Resolve.{
  deref, close_incident, finish_pod, is_incident_resolved, set_pod_resolved,
  set_job_incident_resolved, get_incident_details, is_empty,
}
use porter_agent.Redis.Keyspace.{Dataset, absent}
use porter_agent.Models.{EventCodec, NeverPanics, PodEvent}
use porter_agent.Text.{Text, codes}
use porter_agent.Redis.Ensures.{
  Ensures, Anything, Ensures-bind, Ensures-or_error, Ensures-if, Ensures-unreached, Ensures-raise,
  Ensures-pure, Ensures-lift,
}
use porter_agent.Client.Typing.{IsIncident, IsSound}
use porter_agent.Client.Events.Safe.{incident_exists-Ensures, object_of-Ensures, get_latest-Ensures}
use porter_agent.Client.Typing.Calls.{del-Ensures, smembers-Ensures, srem-Ensures}
use porter_agent.Client.Keys.{active_key, pods_key}
use porter_agent.Client.Queue.Safe.{append-Ensures}
use porter_agent.Client.Typing.Identifiers.{AllowsMembers-pods}
use porter_agent.Incident.{new_incident_from_string}
use porter_agent.Result.{ok}
use porter_agent.Incident.RoundTrip.{new_incident_from_string-ne-panic}

module _ {redis : Redis} {P : Dataset → Type 0} where
  close_incident-Ensures :
      (now : ℤ) (id : Text) (incident : Incident.Incident)
      → Ensures redis IsSound P (close_incident redis now id incident) (λ _. Anything)
  unfolding close_incident
  close_incident-Ensures now id incident =
      Ensures-bind
        (Ensures-or_error _
          (del-Ensures redis (active_key incident.release_name incident.namespace)))
        λ _. Ensures-or_error _ (append-Ensures now (codes "resolved:" ++ id))

module _ {redis : Redis} {P : Dataset → Type 0} where
  finish_pod-Ensures :
      (now : ℤ) (id : Text) (affected_pods : List Text)
      → IsIncident id
      → Ensures redis IsSound P (finish_pod redis now id affected_pods) (λ _. Anything)
  unfolding finish_pod
  finish_pod-Ensures now id affected_pods h =
      Ensures-if (is_empty affected_pods)
        (λ _.
          Ensures-bind (Ensures-or_error _ (del-Ensures redis (pods_key id)))
            λ _. Ensures-bind (object_of-Ensures id h) λ inc. close_incident-Ensures now id inc)
        (λ _. Ensures-pure tt λ d p. tt)

  pub is_incident_resolved-Ensures :
      (id : Text) → Ensures redis IsSound P (is_incident_resolved redis id) (λ _. P)
  unfolding is_incident_resolved
  is_incident_resolved-Ensures id =
      Ensures-bind (Ensures-or_error _ (smembers-Ensures redis (pods_key id)))
        λ pods. Ensures-pure _ λ d p. p

module _ {redis : Redis} {P : Dataset → Type 0} where
  pub set_pod_resolved-Ensures :
      (now : ℤ) (pod_name id : Text)
      → IsIncident id
      → Ensures redis IsSound P (set_pod_resolved redis now pod_name id) (λ _. Anything)
  unfolding set_pod_resolved
  set_pod_resolved-Ensures now pod_name id h = Ensures-bind (incident_exists-Ensures id) λ exists.
      Ensures-if (not exists) (λ _. Ensures-raise _)
        λ _.
          Ensures-bind
            (Ensures-or_error _ (srem-Ensures redis (pods_key id) pod_name (AllowsMembers-pods id)))
            λ _.
              Ensures-bind (Ensures-or_error _ (smembers-Ensures redis (pods_key id)))
                λ affected_pods. finish_pod-Ensures now id affected_pods h

  pub set_job_resolved-Ensures :
      (now : ℤ) (id : Text)
      → IsIncident id
      → Ensures redis IsSound P (set_job_incident_resolved redis now id) (λ _. Anything)
  unfolding set_job_incident_resolved
  set_job_resolved-Ensures now id h = Ensures-bind (incident_exists-Ensures id) λ exists.
      Ensures-if (not exists) (λ _. Ensures-raise _)
        λ _.
          Ensures-bind (Ensures-or_error _ (del-Ensures redis (pods_key id)))
            λ _. Ensures-bind (object_of-Ensures id h) λ inc. close_incident-Ensures now id inc

deref-Ensures :
    {redis : Redis} (codec : EventCodec) {P : Dataset → Type 0} (latest : Option PodEvent)
    → ((d : Dataset) → P d → latest ≢ none)
    → Ensures redis IsSound P (deref redis codec latest) (λ _. Anything)
unfolding deref
deref-Ensures codec none h = Ensures-unreached λ d i p. h d p refl
deref-Ensures codec (some event) h = Ensures-pure event λ d p. tt

pub not-false : (b : Bool) → not b ≡ false → b ≡ true
not-false true e = refl
not-false false e = absurd (cc e)

module _ {redis : Redis} {codec : EventCodec} (returns : NeverPanics codec)
    {P : Dataset → Type 0} where
  pub get_incident_details-Ensures :
      (id : Text) → Ensures redis IsSound P (get_incident_details redis codec id) (λ _. Anything)
  unfolding get_incident_details
  get_incident_details-Ensures id = Ensures-bind (incident_exists-Ensures id) λ exists.
      Ensures-if (not exists) (λ _. Ensures-raise _)
        λ e.
          Ensures-bind
            {Q = λ inc d. (d.values id ≢ absent) × (new_incident_from_string id ≡ ok inc)}
            (Ensures-or_error _ (
              Ensures-lift _ (new_incident_from_string-ne-panic id)
                λ d inc r p. (p.1 (not-false exists e), r)))
            λ inc. Ensures-bind (Ensures-or_error _ (is_incident_resolved-Ensures id)) λ resolved.
              Ensures-bind (Ensures-or_error _ (get_latest-Ensures returns id)) λ latest.
                Ensures-bind (deref-Ensures codec latest λ d p. p.1 (inc, p.0.1) p.0.0)
                  λ event. Ensures-pure _ λ d p. tt
