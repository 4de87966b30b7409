-- ===== src/Controller/Settle.antt =====
-- What the controller does with a pod that has nothing to report (`controllers/pod_controller.go`,
-- Reconcile, lines 161 to 199).
pub mod Safe
pub mod Resolves
use porter_agent.Redis.Action.{◌>>=◌, ◌>>◌, Attempt, Action, attempt, error, pure, done, lift}
use porter_agent.Base.{if◌then◌else◌, ◌&&◌, Bool, ◌+ℤ◌, pos}
use porter_agent.Redis.{Redis}
use porter_agent.Kube.{Cluster, Pod}
use porter_agent.Controller.Outcome.{Readings, Outcome, is_after, finished}
use porter_agent.Text.{Text, eq_text, codes}
use porter_agent.Controller.Owner.{Owner}
use porter_agent.Controller.Pods.{get_latest_running_started_at, all_running}
use porter_agent.Client.Active.{get_active_incident}
use porter_agent.Client.Resolve.{set_job_incident_resolved, set_pod_resolved}
use porter_agent.Controller.Rollout.{can_ignore_multipod_deployment}

module _ (redis : Redis) (cluster : Cluster redis.World) (clock : Readings) where
  open redis use {World}

  has_run_long : Pod → Bool
  has_run_long instance =
      let (started_at, valid) = get_latest_running_started_at instance in
      all_running instance.container_statuses
      && (valid && is_after clock.checked (started_at +ℤ pos 600))

  -- The errors of the resolving are dropped.
  resolve : Text → Owner → Pod → Attempt Text → Action World Outcome
  unfolding has_run_long
  resolve namespace owner instance (error e) = pure finished
  resolve namespace owner instance (done id) =
      if eq_text owner.kind (codes "Job")
      then (do attempt (set_job_incident_resolved redis clock.resolved id); pure finished)
      else if has_run_long instance
      then (do attempt (set_pod_resolved redis clock.resolved instance.name id); pure finished)
      else do
        ignore ← lift (can_ignore_multipod_deployment cluster namespace owner.name)
        if ignore
            then (do attempt (set_job_incident_resolved redis clock.resolved id); pure finished)
            else pure finished

  -- A pod with nothing to report may resolve the active incident.
  unfoldable pub settle_pod : Text → Owner → Pod → Action World Outcome
  unfolding resolve
  settle_pod namespace owner instance = do
    id ← attempt (get_active_incident redis owner.release_name instance.namespace)
    resolve namespace owner instance id
