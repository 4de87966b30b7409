-- ===== src/Controller/Reconcile.antt =====
-- Reconcile (`controllers/pod_controller.go`): one call for one pod.
pub mod Safe
pub mod PassedOver
pub mod Reported
use porter_agent.Redis.Action.{
  ◌>>=◌, Attempt, Action, lift, result_of, pure, error, error, done, attempt,
}
use porter_agent.Base.{
  List, [], ◌∷◌, Option, none, some, if◌then◌else◌, ℤ, ◌||◌, Bool, false, not, sort_by, ◌++◌, ltb_ℤ,
}
use porter_agent.Text.{Text, eq_text, codes}
use porter_agent.Redis.{Redis}
use porter_agent.Kube.{Pod, Cluster, Lookup, lists_of, failure, found, not_found}
use porter_agent.Models.{EventCodec, ContainerEvent}
use porter_agent.Controller.Outcome.{Readings, Outcome, finished, retry, or_retry}
use porter_agent.Controller.Report.{report_pod}
use porter_agent.Controller.Owner.{Owner, get_owner_details}
use porter_agent.Controller.Settle.{settle_pod}
use porter_agent.Filter.{FilteredMessageResult, filter}
use porter_agent.Client.Queue.{get_agent_creation_timestamp}
use porter_agent.Controller.Pods.{delete_finalizer_if_exists}

unfoldable pub is_ignored_namespace : Text → Bool
is_ignored_namespace namespace =
    eq_text namespace (codes "cert-manager")
    || (eq_text namespace (codes "ingress-nginx")
        || (eq_text namespace (codes "kube-node-lease")
            || (eq_text namespace (codes "kube-public")
                || (eq_text namespace (codes "kube-system")
                    || (eq_text namespace (codes "monitoring")
                        || eq_text namespace (codes "porter-agent-system"))))))

abbrev is_outdated : Text → List Pod → Bool
is_outdated name [] = false
is_outdated name (pod ∷ pods) = not (eq_text pod.name name)

-- The order in which the entries of a map are visited is not fixed: `visit` gives it.
module _ (redis : Redis) (codec : EventCodec) (cluster : Cluster redis.World) (porter_host : Text)
    (visit : List (Text × ContainerEvent) → List (Text × ContainerEvent)) (clock : Readings) where
  open redis use {World}

  filtered_pod : Text → Owner → Pod → Option FilteredMessageResult → Action World Outcome
  unfolding report_pod settle_pod
  filtered_pod namespace owner instance none =
      settle_pod redis cluster clock namespace owner instance
  filtered_pod namespace owner instance (some filtered) =
      report_pod redis codec cluster visit clock namespace owner instance filtered

  unfoldable pub filter_pod : Text → Owner → Pod → Action World Outcome
  unfolding filtered_pod
  filter_pod namespace owner instance = do
    filtered ←
        lift (filter (lists_of cluster) porter_host instance (eq_text owner.kind (codes "Job")))
    filtered_pod namespace owner instance filtered

  -- The pods of the job, the newest first.
  job_pods : Owner → Pod → Action World (List Pod)
  unfolding sort_by
  job_pods owner instance = do
    pods ← lift (
        result_of (
          cluster.list_pods instance.namespace
            (codes "app.kubernetes.io/instance=" ++ owner.release_name)))
    pure (sort_by (λ (a b : Pod). ltb_ℤ b.creation_timestamp a.creation_timestamp) pods)

  -- Of the pods of a job only the newest one counts.
  unfoldable pub reconcile_owned : Text → Owner → Pod → Action World Outcome
  unfolding filter_pod job_pods
  reconcile_owned namespace owner instance =
      if eq_text owner.release_name []
      then pure finished
      else if not (eq_text owner.kind (codes "Job"))
      then filter_pod namespace owner instance
      else or_retry (job_pods owner instance) λ pods.
        if is_outdated instance.name pods
        then pure finished
        else filter_pod namespace owner instance

  -- The second component is the global `agentCreationTimestamp` afterwards.
  since : Text → Pod → ℤ → Attempt ℤ → Action World (Outcome × ℤ)
  unfolding reconcile_owned
  since namespace instance cached (error e) =
      pure (record { requeue = false; failed = some e }, cached)
  since namespace instance cached (done agent_creation_timestamp) =
      if ltb_ℤ instance.creation_timestamp agent_creation_timestamp
      then pure (finished, agent_creation_timestamp)
      else do
        outcome ← reconcile_owned namespace (get_owner_details cluster namespace instance) instance
        pure (outcome, agent_creation_timestamp)

  without_agent_finalizer : Text → ℤ → Attempt Pod → Action World (Outcome × ℤ)
  unfolding since
  without_agent_finalizer namespace cached (error e) = pure (retry e, cached)
  without_agent_finalizer namespace cached (done instance) =
      if is_ignored_namespace instance.namespace then pure (finished, cached) else do
        timestamp ← attempt (get_agent_creation_timestamp redis clock.first_run cached)
        since namespace instance cached timestamp

  with_pod : Text → ℤ → Lookup Pod → Action World (Outcome × ℤ)
  unfolding without_agent_finalizer
  with_pod namespace cached not_found = pure (finished, cached)
  with_pod namespace cached (failure e) = pure (record { requeue = false; failed = some e }, cached)
  with_pod namespace cached (found pod) = do
    instance ← attempt (delete_finalizer_if_exists cluster pod)
    without_agent_finalizer namespace cached instance

  unfoldable pub reconcile : Text → Text → ℤ → Action World (Outcome × ℤ)
  unfolding with_pod
  reconcile namespace name cached = with_pod namespace cached (cluster.get_pod namespace name)
