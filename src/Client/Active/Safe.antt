-- ===== src/Client/Active/Safe.antt =====
-- The methods on active incidents in any world: what they read and write are identifiers of the release
-- and the namespace.
use porter_agent.Base.{ℤ, refl}
use porter_agent.Redis.{Redis}
use porter_agent.Redis.Keyspace.{Dataset}
use porter_agent.Client.Active.{
  get_active_incident, active_incident_exists, create_active_incident, new_incident,
}
use porter_agent.Text.{Text}
use porter_agent.Redis.Ensures.{
  Ensures, Anything, Ensures-or_error, Ensures-bind, Ensures-weaken, Ensures-pure,
}
use porter_agent.Incident.RoundTrip.{IsWellFormed, new_incident_from_string-to_string}
use porter_agent.Client.Typing.{IsSound, IsIncident, IsActiveOf}
use porter_agent.Client.Typing.Calls.{exists-Ensures, set-Ensures, get-Ensures}
use porter_agent.Client.Typing.Identifiers.{IsActiveOf-IsIncident, active-IsActiveOf, active-Fits}
use porter_agent.Client.Keys.{active_key}
use porter_agent.Incident.{to_string}

module _ {redis : Redis} {P : Dataset → Type 0} where
  -- In any world whose keys hold what their kinds allow, GetActiveIncident does not panic and writes
  -- nothing that breaks this, and what it returns reads as an incident of the release and the namespace
  -- that were asked for.
  pub get_active-IsActiveOf :
      (release_name namespace : Text)
      → Ensures redis IsSound P
          (get_active_incident redis release_name namespace)
          (λ id d. IsActiveOf (active_key release_name namespace) id)
  unfolding get_active_incident
  get_active-IsActiveOf release_name namespace = Ensures-or_error _ (
      Ensures-weaken (λ d p. p) (λ id d p. active-IsActiveOf release_name namespace id d p.0 p.2)
        (get-Ensures redis (active_key release_name namespace)))

  pub get_active-Ensures :
      (release_name namespace : Text)
      → Ensures redis IsSound P
          (get_active_incident redis release_name namespace)
          (λ id d. IsIncident id)
  get_active-Ensures release_name namespace =
      Ensures-weaken (λ d p. p) (λ id d h. IsActiveOf-IsIncident _ id h)
        (get_active-IsActiveOf release_name namespace)

  pub active_exists-Ensures :
      (release_name namespace : Text)
      → Ensures redis IsSound P
          (active_incident_exists redis release_name namespace)
          (λ _. Anything)
  unfolding active_incident_exists
  active_exists-Ensures release_name namespace =
      Ensures-bind (Ensures-or_error _ (exists-Ensures redis (active_key release_name namespace)))
        λ exists. Ensures-pure _ λ d p. tt

  -- The names hold no colon, and the time is an `int64`.
  pub create_active-Ensures :
      (now : ℤ) (release_name namespace : Text)
      → IsWellFormed (new_incident release_name namespace now)
      → Ensures redis IsSound P
          (create_active_incident redis now release_name namespace)
          (λ id d. IsIncident id)
  unfolding create_active_incident
  create_active-Ensures now release_name namespace h =
      let inc = new_incident release_name namespace now in
      let e = new_incident_from_string-to_string inc h in
      Ensures-bind
        (Ensures-or_error _ (
          set-Ensures redis (active_key release_name namespace) (to_string inc) _
            (active-Fits release_name namespace (to_string inc) (inc, e, refl))))
        λ _. Ensures-pure _ λ d p. (inc, e)
