-- ===== src/System/Recovers.antt =====
-- From a pod that is well again to the porter server: a call of the controller closes the incident, and
-- a round of the consumer sends the notification of it.
use porter_agent.Incident
use porter_agent.HttpClient
use porter_agent.Controller.Settle.{settle_pod}
use porter_agent.Base.{
  ◌≡◌, ◌≢◌, ℤ, List, some, All, [], true, ◌∷◌, ◌++◌, ℕ, false, ◌+ℤ◌, pos, suc, subst,
}
use porter_agent.Text.{Text}
use porter_agent.Controller.Outcome.{Readings, is_after, finished}
use porter_agent.Redis.Keyspace.{
  Scored, Dataset, Value, scores, add_scored, as_members, put_scores, remove_member, text, absent,
  insert_scored, without_member, as_scores,
}
use porter_agent.Redis.{Redis}
use porter_agent.Kube.{Pod, Cluster, lists_of}
use porter_agent.Models.{EventCodec, ContainerEvent, PodEvent}
use porter_agent.Client.Keys.{
  active_key, pending_key, pods_key, pending-ne-active, pending-ne-pods, pending-ne-id,
  active-ne-pods, active-ne-id, pods-ne-id,
}
use porter_agent.Filter.Healthy.{IsUp, filter-up}
use porter_agent.Client.Resolve.Lifecycle.{closed, after_pod}
use porter_agent.Consumer.{Server, consume}
use porter_agent.Controller.Pods.{all_running, get_latest_running_started_at}
use porter_agent.Incident.{to_string}
use porter_agent.Consumer.Delivery.{payload_of, Answers, consume-sent}
use porter_agent.Text.Equality.{eq_text_refl}
use porter_agent.Controller.Reconcile.Reported.{IsWatched, reconcile-settle_pod}
use porter_agent.Incident.RoundTrip.{IsWellFormed}
use porter_agent.Controller.Owner.{get_owner_details}
use porter_agent.Result.{ok}
use porter_agent.Client.Resolve.Details.{report_of}
use porter_agent.Redis.Action.{reply, ◌>>◌}
use porter_agent.Redis.Takes.{Takes, Takes-bind}
use porter_agent.Controller.Reconcile.{reconcile}
use porter_agent.Controller.Settle.Resolves.{settle_pod-running}
use porter_agent.Consumer.Posting.{Posts, Posts-bind, consume-Posts}
use porter_agent.HttpClient.{post}

-- The incident is the active one of the release, with a last event, the pod is the only one that it
-- affects, and no notification waits.
pub record IsLastAffected (inc : Incident.Incident) (release_name namespace pod : Text)
    (older : List Scored) (a : Scored) (d : Dataset) : Type 0 where
  pub active : d.values (active_key release_name namespace) ≡ text (to_string inc)
  pub stored : d.values (to_string inc) ≡ scores (older ++ a ∷ [])
  pub affected : as_members (d.values (pods_key (to_string inc))) ≡ some (pod ∷ [])
  pub no_notice : as_scores (d.values pending_key) ≡ some []

-- All containers of the pod run, none waits or has terminated, and the latest of them has run for
-- more than ten minutes.
pub record IsRecovered (clock : Readings) (instance : Pod) (started_at : ℤ) : Type 0 where
  pub up : All IsUp instance.container_statuses
  pub running : all_running instance.container_statuses ≡ true
  pub started : get_latest_running_started_at instance ≡ (started_at, true)
  pub long : is_after clock.checked (started_at +ℤ pos 600) ≡ true

scores-ne-absent : (l : List Scored) (v : Value) → v ≡ scores l → v ≢ absent
scores-ne-absent l v h e = cc (h, e)

module _ (now : ℤ) (inc : Incident.Incident) (d : Dataset) where
  closed-queued :
      (closed now inc [] d).values pending_key
      ≡ scores (record { member = payload_of false (to_string inc); score = now } ∷ [])
  unfolding add_scored insert_scored without_member
  closed-queued = rw (eq_text_refl pending_key)

  closed-stored :
      (l : List Scored)
      → d.values (to_string inc) ≡ scores l
      → (closed now inc [] d).values (to_string inc) ≡ scores l
  closed-stored l stored = rw (
    pending-ne-id inc,
    active-ne-id inc.release_name inc.namespace inc,
    pods-ne-id inc (to_string inc),
    stored,
  )

  closed-affected : as_members ((closed now inc [] d).values (pods_key (to_string inc))) ≡ some []
  closed-affected = rw (
    pending-ne-pods (to_string inc),
    active-ne-pods inc.release_name inc.namespace (to_string inc),
    eq_text_refl (pods_key (to_string inc)),
  )

  closed-inactive :
      (put_scores pending_key [] (closed now inc [] d)).values
        (active_key inc.release_name inc.namespace)
      ≡ absent
  closed-inactive = rw (
    pending-ne-active inc.release_name inc.namespace,
    eq_text_refl (active_key inc.release_name inc.namespace),
  )

  after_pod-closed :
      (pod : Text) → after_pod now inc [] d (remove_member pod (pod ∷ [])) ≡ closed now inc [] d
  unfolding remove_member
  after_pod-closed pod = rw (eq_text_refl pod)

module _ {redis : Redis} (codec : EventCodec) (server : Server redis.World)
    (cluster : Cluster redis.World) (porter_host : Text)
    (visit : List (Text × ContainerEvent) → List (Text × ContainerEvent)) (clock : Readings)
    (namespace name : Text) (since_agent : ℕ) (instance : Pod) where
  -- With the server up, let the controller be called for a pod that is watched, younger than the
  -- agent and no pod of a job, all of whose containers run, none waiting or terminated, and have run
  -- for more than ten minutes; let a well-formed incident be the active one of its release, stored
  -- with a last event that can be decoded, with the pod as the only one affected, let no notification
  -- wait, and let the request for the notification of its end be answered, whatever the status. Then
  -- the call and one round of the consumer end with that request: POST to the path
  -- `notify_resolved`, with the encoding of the report of the incident with no affected pod as its
  -- body. The notification has left the queue, which is empty, and the incident is not active any more.
  pub reconcile-recovers :
      (inc : Incident.Incident) (older : List Scored) (a : Scored) (latest : PodEvent)
      (started_at : ℤ) (response : HttpClient.Response) (d : Dataset)
      → IsWatched cluster namespace name since_agent instance
      → IsRecovered clock instance started_at
      → IsWellFormed inc
      → IsLastAffected inc
          (get_owner_details cluster namespace instance).release_name
          instance.namespace
          instance.name
          older
          a
          d
      → codec.unmarshal a.member ≡ ok latest
      → ((d' : Dataset) → Answers redis server false (report_of inc latest []) (reply response) d')
      → (d' : Dataset) × Takes redis
          (reconcile redis codec cluster porter_host visit clock namespace name
              (pos (suc since_agent))
            >> consume redis codec server)
          d
          (ok tt)
          d'
        × (d'.values pending_key ≡ absent)
        × (d'.values (active_key inc.release_name inc.namespace) ≡ absent)
        × Posts redis server false
            (report_of inc latest [])
            (reconcile redis codec cluster porter_host visit clock namespace name
                (pos (suc since_agent))
              >> consume redis codec server)
            d
            d'
  reconcile-recovers inc older a latest started_at response d watched recovered wf last decoded
        answered =
      let owner = get_owner_details cluster namespace instance in
      let d₁ = closed clock.resolved inc [] d in
      let queued = closed-queued clock.resolved inc d in
      let stored = closed-stored clock.resolved inc d (older ++ a ∷ []) last.stored in
      let affected = closed-affected clock.resolved inc d in
      let settled =
        reconcile-settle_pod codec cluster porter_host visit clock namespace name since_agent
          instance watched finished d d₁
          (filter-up (lists_of cluster) instance porter_host false recovered.up)
          (subst
            (λ x.
              Takes redis (settle_pod redis cluster clock namespace owner instance) d (ok finished)
                x)
            (after_pod-closed clock.resolved inc d instance.name)
            (settle_pod-running cluster clock namespace owner instance inc d [] (instance.name ∷ [])
              started_at wf watched.no_job last.active
              (scores-ne-absent (older ++ a ∷ []) (d.values (to_string inc)) last.stored)
              last.affected last.no_notice recovered.running recovered.started recovered.long)) in
      (
        put_scores pending_key [] d₁,
        Takes-bind _ settled (
            consume-sent codec server false inc clock.resolved [] d₁ older a latest [] wf queued
              stored decoded affected response (answered _)),
        rw (eq_text_refl pending_key),
        closed-inactive clock.resolved inc d,
        Posts-bind server false (report_of inc latest []) settled (
            consume-Posts codec server false inc clock.resolved [] d₁ older a latest [] wf queued
              stored decoded affected response (answered _)),
      )
