-- ===== src/Client/Active.antt =====
-- The active incident of a release in a namespace (`pkg/redis/client.go`).
pub mod Lifecycle
pub mod Safe
use porter_agent.Base.{ℤ, Bool, not, ◌++◌, some, ◌==◌}
use porter_agent.Text.{Text, codes}
use porter_agent.Result.{Error, fail, error_text}
use porter_agent.Incident.{new_incident, to_string, two_weeks}
use porter_agent.Redis.{Redis}
use porter_agent.Redis.Action.{Action, pure, call, or_error, ◌>>=◌, ◌>>◌}
use porter_agent.Client.Keys.{active_key}

-- fmt.Errorf("<before>%s<between>%s. Error: %w", releaseName, namespace, err)
abbrev wrap_release : Text → Text → Text → Text → Error → Error
wrap_release before release_name between namespace e =
    fail
      (before ++ (release_name ++ (between ++ (namespace ++ (codes ". Error: " ++ error_text e)))))

module _ (redis : Redis) where
  open redis use {World}

  unfoldable pub get_active_incident : Text → Text → Action World Text
  get_active_incident release_name namespace =
      or_error (call (redis.get (active_key release_name namespace))) (
        wrap_release (codes "error fetching active incident for ") release_name
          (codes " in namespace ") namespace)

  unfoldable pub active_incident_exists : Text → Text → Action World Bool
  active_incident_exists release_name namespace = do
    exists ← or_error (call (redis.exists (active_key release_name namespace))) (
        wrap_release (codes "error checking for active incident for release: ") release_name
          (codes ", namespace: ") namespace)
    pure (not (exists == 0))

  unfoldable pub create_active_incident : ℤ → Text → Text → Action World Text
  create_active_incident now release_name namespace = do
    let id = to_string (new_incident release_name namespace now)
    or_error (call (redis.set (active_key release_name namespace) id (some two_weeks))) (
        wrap_release (codes "error creating new active incident for release ") release_name
          (codes " with namespace ") namespace)
    pure id
