-- ===== src/Controller/Reconcile/Safe.antt =====
-- A call of the controller in any world: it keeps what each key holds, and never panics.
use porter_agent.Incident.{new_incident}
use porter_agent.Base.{◌≡◌, List, Option, ℤ, some, [], ltb_ℤ, not, refl}
use porter_agent.Controller.Owner.{get_owner_details, Owner, release-Lacks}
use porter_agent.Redis.{Redis}
use porter_agent.Kube.{Cluster, Pod, IsValid, Lookup, IsPod, found, lists_of, not_found}
use porter_agent.Models.{EventCodec, NeverPanics, ContainerEvent}
use porter_agent.Text.{Text, colon, eq_text, codes}
use porter_agent.Text.Split.{Lacks}
use porter_agent.Controller.Outcome.{Readings}
use porter_agent.Text.Decimal.{IsInt64}
use porter_agent.Controller.Reconcile.{
  filtered_pod, filter_pod, job_pods, reconcile_owned, since, without_agent_finalizer, with_pod,
  reconcile, error, error, done, done, failure, is_ignored_namespace, is_outdated,
}
use porter_agent.Redis.Keyspace.{Dataset}
use porter_agent.Redis.Action.{Attempt}
use porter_agent.Redis.Ensures.{
  Ensures, Anything, IfDone, Ensures-bind, Ensures-if, Ensures-pure, Ensures-lift,
  result_of-ne-panic, Ensures-given, Ensures-attempt,
}
use porter_agent.Filter.{FilteredMessageResult}
use porter_agent.Client.Typing.{IsSound}
use porter_agent.Incident.RoundTrip.{IsWellFormed}
use porter_agent.Filter.Safe.{filter-ne-panic}
use porter_agent.Controller.Pods.Safe.{delete_finalizer-Ensures}
use porter_agent.Client.Queue.Safe.{get_creation-Ensures}
use porter_agent.Controller.Outcome.Safe.{or_retry-Ensures}
use porter_agent.Controller.Settle.Safe.{settle_pod-Ensures}
use porter_agent.Controller.Report.Safe.{report_pod-Ensures}
use mathlib.Core.Option.{none}

module _ {redis : Redis} {codec : EventCodec} (returns : NeverPanics codec)
    (cluster : Cluster redis.World) (valid : IsValid redis.data_of cluster) (porter_host : Text)
    (visit : List (Text × ContainerEvent) → List (Text × ContainerEvent)) (clock : Readings)
    (in_range : IsInt64 clock.created) where
  filtered_pod-Ensures :
      {P : Dataset → Type 0} (namespace : Text) (owner : Owner) (instance : Pod)
      (filtered : Option FilteredMessageResult)
      → IsWellFormed (new_incident owner.release_name instance.namespace clock.created)
      → Ensures redis IsSound P
          (filtered_pod redis codec cluster porter_host visit clock namespace owner instance
            filtered)
          (λ _. Anything)
  unfolding filtered_pod
  filtered_pod-Ensures namespace owner instance none h =
      settle_pod-Ensures valid clock namespace owner instance
  filtered_pod-Ensures namespace owner instance (some filtered) h =
      report_pod-Ensures returns cluster valid visit clock namespace owner instance filtered h

  filter_pod-Ensures :
      {P : Dataset → Type 0} (namespace : Text) (owner : Owner) (instance : Pod)
      → IsPod instance
      → Lacks colon owner.release_name
      → Ensures redis IsSound P
          (filter_pod redis codec cluster porter_host visit clock namespace owner instance)
          (λ _. Anything)
  unfolding filter_pod
  filter_pod-Ensures namespace owner instance h k =
      Ensures-bind {Q = λ _. Anything}
        (Ensures-lift _
          (filter-ne-panic (lists_of cluster) instance h.containers porter_host
            (eq_text owner.kind (codes "Job")))
          λ d a e p. tt)
        λ filtered.
          filtered_pod-Ensures namespace owner instance filtered
            (record { release_name = k; namespace = h.namespace; timestamp = in_range })

  job_pods-Ensures :
      {P : Dataset → Type 0} (owner : Owner) (instance : Pod)
      → Ensures redis IsSound P
          (job_pods redis codec cluster porter_host visit clock owner instance)
          (λ _. Anything)
  unfolding job_pods
  job_pods-Ensures owner instance =
      Ensures-bind {Q = λ _. Anything} (Ensures-lift _ (result_of-ne-panic _) λ d a e p. tt)
        λ pods. Ensures-pure _ λ d p. tt

  reconcile_owned-Ensures :
      {P : Dataset → Type 0} (namespace : Text) (owner : Owner) (instance : Pod)
      → IsPod instance
      → Lacks colon owner.release_name
      → Ensures redis IsSound P
          (reconcile_owned redis codec cluster porter_host visit clock namespace owner instance)
          (λ _. Anything)
  unfolding reconcile_owned
  reconcile_owned-Ensures namespace owner instance h k =
      Ensures-if (eq_text owner.release_name []) (λ _. Ensures-pure _ λ d p. tt)
        λ _.
          Ensures-if (not (eq_text owner.kind (codes "Job")))
            (λ _. filter_pod-Ensures namespace owner instance h k)
            λ _. or_retry-Ensures _ (job_pods-Ensures owner instance) λ pods.
              Ensures-if (is_outdated instance.name pods) (λ _. Ensures-pure _ λ d p. tt)
                λ _. filter_pod-Ensures namespace owner instance h k

  since-Ensures :
      {P : Dataset → Type 0} (namespace : Text) (instance : Pod) (cached : ℤ)
      (timestamp : Attempt ℤ)
      → IsPod instance
      → Ensures redis IsSound P
          (since redis codec cluster porter_host visit clock namespace instance cached timestamp)
          (λ _. Anything)
  unfolding since
  since-Ensures namespace instance cached (error e) h = Ensures-pure _ λ d p. tt
  since-Ensures namespace instance cached (done t) h =
      Ensures-if (ltb_ℤ instance.creation_timestamp t) (λ _. Ensures-pure _ λ d p. tt)
        λ _.
          Ensures-bind
            (reconcile_owned-Ensures namespace (get_owner_details cluster namespace instance)
              instance h (release-Lacks cluster namespace instance h.label))
            λ outcome. Ensures-pure _ λ d p. tt

  without_finalizer-Ensures :
      (namespace : Text) (cached : ℤ) (instance : Attempt Pod)
      → Ensures redis IsSound
          (IfDone (λ pod d. IsPod pod) instance)
          (without_agent_finalizer redis codec cluster porter_host visit clock namespace cached
            instance)
          (λ _. Anything)
  unfolding without_agent_finalizer
  without_finalizer-Ensures namespace cached (error e) = Ensures-pure _ λ d p. tt
  without_finalizer-Ensures namespace cached (done instance) =
      Ensures-given (λ d i p. p)
        λ h.
          Ensures-if (is_ignored_namespace instance.namespace) (λ _. Ensures-pure _ λ d p. tt)
            λ _.
              Ensures-bind (Ensures-attempt (get_creation-Ensures clock.first_run cached))
                λ timestamp. since-Ensures namespace instance cached timestamp h

  with_pod-Ensures :
      {P : Dataset → Type 0} (namespace : Text) (cached : ℤ) (answer : Lookup Pod)
      → ((pod : Pod) → answer ≡ found pod → IsPod pod)
      → Ensures redis IsSound P
          (with_pod redis codec cluster porter_host visit clock namespace cached answer)
          (λ _. Anything)
  unfolding with_pod
  with_pod-Ensures namespace cached not_found h = Ensures-pure _ λ d p. tt
  with_pod-Ensures namespace cached (failure e) h = Ensures-pure _ λ d p. tt
  with_pod-Ensures namespace cached (found pod) h =
      Ensures-bind (Ensures-attempt (delete_finalizer-Ensures cluster valid pod (h pod refl)))
        λ instance. without_finalizer-Ensures namespace cached instance

  pub reconcile-Ensures :
      {P : Dataset → Type 0} (namespace name : Text) (cached : ℤ)
      → Ensures redis IsSound P
          (reconcile redis codec cluster porter_host visit clock namespace name cached)
          (λ _. Anything)
  unfolding reconcile
  reconcile-Ensures namespace name cached =
      with_pod-Ensures namespace cached (cluster.get_pod namespace name) (valid.pods namespace name)
