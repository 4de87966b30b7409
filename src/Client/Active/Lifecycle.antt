-- ===== src/Client/Active/Lifecycle.antt =====
-- An active incident from its creation to the resolution of its last pod.
use porter_agent.Base.{ℤ, ◌≡◌, ◌≢◌, List, some, ◌+ℤ◌, false, true, subst}
use porter_agent.Text.{Text, eq_text}
use porter_agent.Result.{ok}
use porter_agent.Incident.{Incident, new_incident, to_string, two_weeks}
use porter_agent.Incident.RoundTrip.{IsWellFormed}
use porter_agent.Base.{[], Bool}
use porter_agent.Redis.Action.{◌>>◌, ◌>>=◌, pure}
use porter_agent.Redis.{Redis}
use porter_agent.Redis.Takes.{Takes, Takes-bind, Takes-call, Takes-or_error, Takes-pure}
use porter_agent.Client.Keys.{pods_key, active_key, pending_key}
use porter_agent.Client.Active.{create_active_incident, get_active_incident, active_incident_exists}
use porter_agent.Redis.Keyspace.{
  Dataset, set_deadline, text, absent, Scored, as_members, put, as_scores, remove_member,
  text-ne-absent,
}
use porter_agent.Text.Equality.{eq_text_refl}
use porter_agent.Client.Resolve.{set_pod_resolved, is_incident_resolved}
use porter_agent.Client.Resolve.Lifecycle.{
  closed, after_pod, set_pod_resolved-Takes, is_incident_resolved-Takes,
}
use porter_agent.Redis.Laws.{set-Replies, get_text, exists_absent, exists_present}

-- The active incident of a release is `id`, for two weeks.
abbrev pub opened : Text → Text → Text → Dataset → Dataset
opened release_name namespace id d =
    set_deadline (active_key release_name namespace) (some (d.clock +ℤ two_weeks))
      (put (active_key release_name namespace) (text id) d)

module _ {redis : Redis} where
  pub create_active_incident-Takes :
      (now : ℤ) (release_name namespace : Text) (d : Dataset)
      → Takes redis
          (create_active_incident redis now release_name namespace)
          d
          (ok (to_string (new_incident release_name namespace now)))
          (opened release_name namespace (to_string (new_incident release_name namespace now)) d)
  unfolding create_active_incident
  create_active_incident-Takes now release_name namespace d =
      Takes-bind _ (Takes-or_error _ (Takes-call _ (set-Replies redis _ _ _ d))) (Takes-pure _ _)

  pub get_active_incident-Takes :
      (release_name namespace : Text) (d : Dataset) (id : Text)
      → d.values (active_key release_name namespace) ≡ text id
      → Takes redis (get_active_incident redis release_name namespace) d (ok id) d
  unfolding get_active_incident
  get_active_incident-Takes release_name namespace d id h =
      Takes-or_error _ (Takes-call _ (get_text redis _ d id h))

  pub active_incident_exists-absent :
      (release_name namespace : Text) (d : Dataset)
      → d.values (active_key release_name namespace) ≡ absent
      → Takes redis (active_incident_exists redis release_name namespace) d (ok false) d
  unfolding active_incident_exists
  active_incident_exists-absent release_name namespace d h =
      Takes-bind _ (Takes-or_error _ (Takes-call _ (exists_absent redis _ d h))) (Takes-pure _ _)

  pub active_incident_exists-present :
      (release_name namespace : Text) (d : Dataset)
      → d.values (active_key release_name namespace) ≢ absent
      → Takes redis (active_incident_exists redis release_name namespace) d (ok true) d
  unfolding active_incident_exists
  active_incident_exists-present release_name namespace d h =
      Takes-bind _ (Takes-or_error _ (Takes-call _ (exists_present redis _ d h))) (Takes-pure _ _)

  -- With the server up, an incident that has been created is the active one of its release and
  -- namespace, for two weeks: it exists and is found.
  pub get_active-create_active :
      (now : ℤ) (release_name namespace : Text) (d : Dataset)
      → Takes redis {A = Bool × Text}
          (do
            create_active_incident redis now release_name namespace
            exists ← active_incident_exists redis release_name namespace
            id ← get_active_incident redis release_name namespace
            pure (exists, id))
          d
          (ok (true, to_string (new_incident release_name namespace now)))
          (opened release_name namespace (to_string (new_incident release_name namespace now)) d)
  get_active-create_active now release_name namespace d =
      let key = active_key release_name namespace in
      let id = to_string (new_incident release_name namespace now) in
      let found : (opened release_name namespace id d).values key ≡ text id =
        rw (eq_text_refl key) in
      Takes-bind _ (create_active_incident-Takes now release_name namespace d) (
        Takes-bind _
          (active_incident_exists-present release_name namespace _ (text-ne-absent found))
          (Takes-bind _ (get_active_incident-Takes release_name namespace _ id found)
            (Takes-pure _ _)))

  -- With the server up, when the only affected pod of a well-formed incident that is stored is
  -- resolved, the incident is resolved and its release has no active incident in its namespace.
  pub set_pod_resolved_last :
      (now : ℤ) (pod : Text) (inc : Incident) (d : Dataset) (pods : List Text) (queue : List Scored)
      → IsWellFormed inc
      → d.values (to_string inc) ≢ absent
      → as_members (d.values (pods_key (to_string inc))) ≡ some pods
      → as_scores (d.values pending_key) ≡ some queue
      → remove_member pod pods ≡ []
      → Takes redis {A = Bool × Bool}
          (do
            set_pod_resolved redis now pod (to_string inc)
            exists ← active_incident_exists redis inc.release_name inc.namespace
            resolved ← is_incident_resolved redis (to_string inc)
            pure (exists, resolved))
          d
          (ok (false, true))
          (closed now inc queue d)
  unfolding eq_text
  set_pod_resolved_last now pod inc d pods queue wf here affected waiting last =
      Takes-bind _
        (subst
          (λ l.
            Takes redis (set_pod_resolved redis now pod (to_string inc)) d (ok tt)
              (after_pod now inc queue d l))
          last (set_pod_resolved-Takes now pod inc d pods queue wf here affected waiting))
        (Takes-bind _
          (active_incident_exists-absent inc.release_name inc.namespace (closed now inc queue d)
            (rw (eq_text_refl (active_key inc.release_name inc.namespace))))
          (Takes-bind _
            (is_incident_resolved-Takes (to_string inc) (closed now inc queue d) []
              (rw (eq_text_refl (to_string inc))))
            (Takes-pure _ _)))
