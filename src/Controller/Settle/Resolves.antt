-- ===== src/Controller/Settle/Resolves.antt =====
-- Which incidents are resolved by a pod with nothing to report.
use porter_agent.Base.{◌≡◌, ◌≢◌, List, some, ℤ, true, false, pos, ◌+ℤ◌}
use porter_agent.Incident.{Incident, to_string}
use porter_agent.Redis.Takes.{Takes, Takes-bind, Takes-attempt, Takes-pure}
use porter_agent.Redis.{Redis}
use porter_agent.Kube.{Cluster, Pod}
use porter_agent.Controller.Outcome.{Readings, finished, is_after}
use porter_agent.Text.{Text, codes, eq_text}
use porter_agent.Controller.Owner.{Owner}
use porter_agent.Redis.Keyspace.{
  Dataset, Scored, text, absent, as_scores, as_members, remove_member,
}
use porter_agent.Controller.Settle.{settle_pod, resolve, has_run_long}
use porter_agent.Incident.RoundTrip.{IsWellFormed}
use porter_agent.Client.Keys.{active_key, pending_key, pods_key}
use porter_agent.Result.{ok}
use porter_agent.Controller.Pods.{all_running, get_latest_running_started_at}
use porter_agent.Client.Resolve.Lifecycle.{
  closed, after_pod, set_job_incident_resolved-Takes, set_pod_resolved-Takes,
}
use porter_agent.Client.Active.Lifecycle.{get_active_incident-Takes}
use porter_agent.Text.Equality.{eq_text_refl}

module _ {redis : Redis} (cluster : Cluster redis.World) (clock : Readings) (namespace : Text)
    (owner : Owner) (instance : Pod) (inc : Incident) (d : Dataset) (queue : List Scored) where
  -- With the server up, a pod of a job with nothing to report closes the active incident of its release,
  -- which is well formed and stored, whatever pods it affects: its resolution waits to be sent.
  pub settle_pod-job :
      IsWellFormed inc
      → owner.kind ≡ codes "Job"
      → d.values (active_key owner.release_name instance.namespace) ≡ text (to_string inc)
      → d.values (to_string inc) ≢ absent
      → as_scores (d.values pending_key) ≡ some queue
      → Takes redis
          (settle_pod redis cluster clock namespace owner instance)
          d
          (ok finished)
          (closed clock.resolved inc queue d)
  unfolding settle_pod resolve
  settle_pod-job wf job active here waiting =
      Takes-bind _
        (Takes-attempt (get_active_incident-Takes owner.release_name instance.namespace d _ active))
        (rw (job, eq_text_refl (codes "Job"))
          (Takes-bind _
            (Takes-attempt
              (set_job_incident_resolved-Takes clock.resolved inc d queue wf here waiting))
            (Takes-pure _ _)))

  -- With the server up, let the release of a pod of no job with nothing to report have an active
  -- incident, well formed and stored. If all containers of the pod run, and the latest of them started
  -- more than ten minutes ago, the pod is resolved: it is taken out of the set, and the incident is
  -- closed if it was the last one.
  pub settle_pod-running :
      (pods : List Text) (started_at : ℤ)
      → IsWellFormed inc
      → eq_text owner.kind (codes "Job") ≡ false
      → d.values (active_key owner.release_name instance.namespace) ≡ text (to_string inc)
      → d.values (to_string inc) ≢ absent
      → as_members (d.values (pods_key (to_string inc))) ≡ some pods
      → as_scores (d.values pending_key) ≡ some queue
      → all_running instance.container_statuses ≡ true
      → get_latest_running_started_at instance ≡ (started_at, true)
      → is_after clock.checked (started_at +ℤ pos 600) ≡ true
      → Takes redis
          (settle_pod redis cluster clock namespace owner instance)
          d
          (ok finished)
          (after_pod clock.resolved inc queue d (remove_member instance.name pods))
  unfolding settle_pod resolve has_run_long
  settle_pod-running pods started_at wf no_job active here affected waiting running latest long =
      Takes-bind _
        (Takes-attempt (get_active_incident-Takes owner.release_name instance.namespace d _ active))
        (rw (no_job, running, latest, long)
          (Takes-bind _
            (Takes-attempt (
              set_pod_resolved-Takes clock.resolved instance.name inc d pods queue wf here affected
                waiting))
            (Takes-pure _ _)))
