-- ===== src/Controller/Reconcile/Reported.antt =====
-- A call of Reconcile for a pod that the filter has something to say of.
use porter_agent.Base.{◌≡◌, List, ℕ, subst, false, ltb_ℤ, pos, suc, [], some, Option, none}
use porter_agent.Redis.{Redis}
use porter_agent.Models.{EventCodec, ContainerEvent}
use porter_agent.Kube.{Cluster, Pod, found, lists_of}
use porter_agent.Text.{Text, eq_text, codes}
use porter_agent.Controller.Outcome.{Readings, Outcome}
use porter_agent.Result.{Result, ok}
use porter_agent.Redis.Keyspace.{Dataset}
use porter_agent.Redis.Takes.{Takes, Takes-lift, Takes-bind, Takes-attempt, Takes-pure}
use porter_agent.Filter.{FilteredMessageResult, filter}
use porter_agent.Redis.Action.{lift}
use porter_agent.Controller.Reconcile.{
  reconcile_owned, reconcile, filter_pod, with_pod, filtered_pod, without_agent_finalizer,
  is_ignored_namespace, since,
}
use porter_agent.Controller.Pods.{has_finalizer}
use porter_agent.Controller.Report.{report_pod}
use porter_agent.Controller.Owner.{get_owner_details}
use porter_agent.Controller.Reconcile.PassedOver.{without_finalizer-Takes, cached-Takes}
use porter_agent.Controller.Settle.{settle_pod}

-- The pod is watched, younger than the agent, of a release, and no pod of a job.
pub record IsWatched {W : Type 0} (cluster : Cluster W) (namespace name : Text) (since_agent : ℕ)
    (instance : Pod) : Type 0 where
  pub there : cluster.get_pod namespace name ≡ found instance
  pub clean : has_finalizer instance.finalizers ≡ false
  pub watched : is_ignored_namespace instance.namespace ≡ false
  pub recent : ltb_ℤ instance.creation_timestamp (pos (suc since_agent)) ≡ false
  pub released : eq_text (get_owner_details cluster namespace instance).release_name [] ≡ false
  pub no_job : eq_text (get_owner_details cluster namespace instance).kind (codes "Job") ≡ false

module _ {redis : Redis} (codec : EventCodec) (cluster : Cluster redis.World) (porter_host : Text)
    (visit : List (Text × ContainerEvent) → List (Text × ContainerEvent)) (clock : Readings) where
  known-lift :
      {A : Type 0} {r : Result A} (q : Result A) (d : Dataset) → r ≡ q → Takes redis (lift r) d q d
  known-lift {r} q d h = subst (λ x. Takes redis (lift r) d x d) h (Takes-lift r d)

  module _ (namespace name : Text) (since_agent : ℕ) (instance : Pod)
      (watched : IsWatched cluster namespace name since_agent instance) (outcome : Outcome)
      (d d' : Dataset) where
    -- What the filter says decides what the call does, and how it ends.
    filtered-Takes :
        (result : Option FilteredMessageResult)
        → filter (lists_of cluster) porter_host instance false ≡ ok result
        → Takes redis
            (filtered_pod redis codec cluster porter_host visit clock namespace
              (get_owner_details cluster namespace instance)
              instance
              result)
            d
            (ok outcome)
            d'
        → Takes redis
            (reconcile redis codec cluster porter_host visit clock namespace name
              (pos (suc since_agent)))
            d
            (ok (outcome, pos (suc since_agent)))
            d'
    unfolding reconcile with_pod without_agent_finalizer since reconcile_owned filter_pod
    filtered-Takes result said done_so = rw watched.there (
        Takes-bind _
          (Takes-attempt (
            without_finalizer-Takes codec cluster porter_host visit clock instance d watched.clean))
          (rw watched.watched (
            Takes-bind _
              (Takes-attempt
                (cached-Takes codec cluster porter_host visit clock clock.first_run since_agent d))
              (rw watched.recent (
                Takes-bind _
                  (rw (watched.released, watched.no_job)
                    (Takes-bind _ (known-lift (ok result) d said) done_so))
                  (Takes-pure _ d'))))))

    -- A pod with a report is reported.
    pub reconcile-report_pod :
        (filtered : FilteredMessageResult)
        → filter (lists_of cluster) porter_host instance false ≡ ok (some filtered)
        → Takes redis
            (report_pod redis codec cluster visit clock namespace
              (get_owner_details cluster namespace instance)
              instance
              filtered)
            d
            (ok outcome)
            d'
        → Takes redis
            (reconcile redis codec cluster porter_host visit clock namespace name
              (pos (suc since_agent)))
            d
            (ok (outcome, pos (suc since_agent)))
            d'
    unfolding filtered_pod
    reconcile-report_pod filtered said reported = filtered-Takes (some filtered) said reported

    -- A pod without a report is settled.
    pub reconcile-settle_pod :
        filter (lists_of cluster) porter_host instance false ≡ ok none
        → Takes redis
            (settle_pod redis cluster clock namespace
              (get_owner_details cluster namespace instance)
              instance)
            d
            (ok outcome)
            d'
        → Takes redis
            (reconcile redis codec cluster porter_host visit clock namespace name
              (pos (suc since_agent)))
            d
            (ok (outcome, pos (suc since_agent)))
            d'
    unfolding filtered_pod
    reconcile-settle_pod said settled = filtered-Takes none said settled
