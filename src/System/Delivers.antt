-- ===== src/System/Delivers.antt =====
-- From a failing pod to the porter server: a call of the controller and a round of the consumer.
use porter_agent.Incident
use porter_agent.HttpClient
use porter_agent.Client.Events.Storing.{announced}
use porter_agent.Base.{◌≡◌, ℤ, List, [], ltb_ℤ, some, ◌++◌, ◌∷◌, true, refl, ℕ, false, pos, suc, ap}
use porter_agent.Kube.{Cluster, Pod, lists_of}
use porter_agent.Redis.Keyspace.{
  Dataset, text, absent, add_scored, add_member, put_scores, insert_scored, is_member,
  without_member, as_members, scores, as_scores, Scored,
}
use porter_agent.Text.{Text, eq_text}
use porter_agent.Controller.Outcome.{Readings, finished}
use porter_agent.Client.Keys.{
  active_key, pending_key, pods_key, pending-ne-id, pending-ne-pods, pods-ne-id, pending-ne-active,
  pods-ne-active, id-ne-active,
}
use porter_agent.Models.{ContainerEvent, PodEvent, EventCodec}
use porter_agent.Controller.Owner.{Owner, get_owner_details}
use porter_agent.Incident.{new_incident, to_string, expiry}
use porter_agent.Filter.{FilteredMessageResult, filter}
use porter_agent.Client.Active.Lifecycle.{opened}
use porter_agent.Client.Events.{with_id}
use porter_agent.Controller.Report.Opening.{visited, IsQuiet}
use porter_agent.Consumer.Delivery.{consume-sent, payload_of, Answers}
use porter_agent.Controller.Event.{event_of}
use porter_agent.Text.Equality.{eq_text_refl}
use porter_agent.Redis.{Redis}
use porter_agent.Consumer.{Server, consume}
use porter_agent.Controller.Reconcile.Reported.{IsWatched, reconcile-report_pod}
use porter_agent.Controller.Rollout.{can_ignore_multipod_deployment}
use porter_agent.Result.{ok}
use porter_agent.Incident.RoundTrip.{IsWellFormed}
use porter_agent.Client.Resolve.Details.{report_of}
use porter_agent.Redis.Action.{reply, ◌>>◌}
use porter_agent.Redis.Takes.{Takes, Takes-bind}
use porter_agent.Controller.Reconcile.{reconcile}
use porter_agent.Controller.Report.First.{report_pod-opened}
use porter_agent.Consumer.Posting.{Posts, Posts-bind, consume-Posts}
use porter_agent.HttpClient.{post}

abbrev pub owner_of : {W : Type 0} → Cluster W → Text → Pod → Owner
owner_of cluster namespace instance = get_owner_details cluster namespace instance

-- The incident that the first report of a release opens.
abbrev pub first_incident : {W : Type 0} → Cluster W → Readings → Text → Pod → Incident.Incident
first_incident cluster clock namespace instance =
    new_incident (owner_of cluster namespace instance).release_name instance.namespace clock.created

-- The event that is stored for the report, if its containers have no logs.
abbrev pub first_event :
    {W : Type 0}
    → Cluster W
    → (List (Text × ContainerEvent) → List (Text × ContainerEvent))
    → Readings
    → Text
    → Pod
    → FilteredMessageResult
    → PodEvent
first_event cluster visit clock namespace instance filtered =
    with_id (to_string (first_incident cluster clock namespace instance)) clock.scored (
      visited visit
        (event_of clock.observed (owner_of cluster namespace instance) instance filtered))

-- Nothing is stored of the incident, its release has no active one, and no notification waits.
pub record IsUnknown (inc : Incident.Incident) (d : Dataset) : Type 0 where
  pub none_active : d.values (active_key inc.release_name inc.namespace) ≡ absent
  pub no_event : d.values (to_string inc) ≡ absent
  pub no_pod : d.values (pods_key (to_string inc)) ≡ absent
  pub no_notice : d.values pending_key ≡ absent
  pub in_time : ltb_ℤ d.clock (expiry inc) ≡ true

module _ (score later : ℤ) (inc : Incident.Incident) (json pod : Text) (d : Dataset) where
  -- The dataset after the call of the controller.
  abbrev pub told : Dataset
  told =
      announced score later inc json pod [] []
        (opened inc.release_name inc.namespace (to_string inc) d)

  told-queued :
      told.values pending_key
      ≡ scores (record { member = payload_of true (to_string inc); score = later } ∷ [])
  unfolding add_scored insert_scored without_member eq_text
  told-queued = refl

  told-stored :
      told.values (to_string inc) ≡ scores ([] ++ record { member = json; score = score } ∷ [])
  unfolding add_scored insert_scored without_member
  told-stored = rw (pending-ne-id inc, pods-ne-id inc (to_string inc), eq_text_refl (to_string inc))

  told-affected : as_members (told.values (pods_key (to_string inc))) ≡ some (pod ∷ [])
  unfolding add_member is_member
  told-affected = rw (pending-ne-pods (to_string inc), eq_text_refl (pods_key (to_string inc)))

  told-active :
      (put_scores pending_key [] told).values (active_key inc.release_name inc.namespace)
      ≡ text (to_string inc)
  told-active = rw (
    pending-ne-active inc.release_name inc.namespace,
    pods-ne-active (to_string inc) inc.release_name inc.namespace,
    id-ne-active inc inc.release_name inc.namespace,
    eq_text_refl (active_key inc.release_name inc.namespace),
  )

module _ {redis : Redis} (codec : EventCodec) (server : Server redis.World)
    (cluster : Cluster redis.World) (porter_host : Text)
    (visit : List (Text × ContainerEvent) → List (Text × ContainerEvent)) (clock : Readings)
    (namespace name : Text) (since_agent : ℕ) (instance : Pod)
    (filtered : FilteredMessageResult) where
  -- With the server up, let the controller be called for a pod that is watched, younger than the
  -- agent and no pod of a job, whose deployment, if it has one, is not ignored, that the filter has
  -- a report of, and whose containers have no logs; let nothing be stored of its release, let its
  -- event be read back from its encoding, and let the request for the notification of the new
  -- incident be answered. Then the call and one round of the consumer end with that request: POST
  -- to the path `notify_new`, with the encoding of the report of the incident, with this event and
  -- this pod, as its body. The notification has left the queue, which is empty, and the incident is
  -- the active one of the release.
  pub reconcile-consume :
      (json : Text) (response : HttpClient.Response) (d : Dataset)
      → IsWatched cluster namespace name since_agent instance
      → filter (lists_of cluster) porter_host instance false ≡ ok (some filtered)
      → can_ignore_multipod_deployment cluster namespace (owner_of cluster namespace instance).name
        ≡ ok false
      → IsWellFormed (first_incident cluster clock namespace instance)
      → IsUnknown (first_incident cluster clock namespace instance) d
      → IsQuiet cluster instance (
          visit
            (event_of clock.observed
              (owner_of cluster namespace instance)
              instance
              filtered).container_events)
      → codec.marshal (first_event cluster visit clock namespace instance filtered) ≡ ok json
      → codec.unmarshal json ≡ ok (first_event cluster visit clock namespace instance filtered)
      → ((d' : Dataset)
          → Answers redis server true
              (report_of
                (first_incident cluster clock namespace instance)
                (first_event cluster visit clock namespace instance filtered)
                (instance.name ∷ []))
              (reply response)
              d')
      → (d' : Dataset) × Takes redis
          (reconcile redis codec cluster porter_host visit clock namespace name
              (pos (suc since_agent))
            >> consume redis codec server)
          d
          (ok tt)
          d'
        × (d'.values pending_key ≡ absent)
        × (d'.values
              (active_key (owner_of cluster namespace instance).release_name instance.namespace)
            ≡ text (to_string (first_incident cluster clock namespace instance)))
        × Posts redis server true
            (report_of
              (first_incident cluster clock namespace instance)
              (first_event cluster visit clock namespace instance filtered)
              (instance.name ∷ []))
            (reconcile redis codec cluster porter_host visit clock namespace name
                (pos (suc since_agent))
              >> consume redis codec server)
            d
            d'
  unfolding event_of
  reconcile-consume json response d watched said counts wf unknown quiet encoded decoded accepted =
      let inc = first_incident cluster clock namespace instance in
      let event = first_event cluster visit clock namespace instance filtered in
      let d₁ = told clock.scored clock.announced inc json instance.name d in
      let a : Scored = record { member = json; score = clock.scored } in
      let queued = told-queued clock.scored clock.announced inc json instance.name d in
      let stored = told-stored clock.scored clock.announced inc json instance.name d in
      let affected = told-affected clock.scored clock.announced inc json instance.name d in
      let opening =
        reconcile-report_pod codec cluster porter_host visit clock namespace name since_agent
          instance watched finished d d₁ filtered said
          (report_pod-opened codec visit namespace (owner_of cluster namespace instance) instance
            filtered cluster clock json d [] [] counts unknown.none_active wf unknown.no_event
            (ap as_members unknown.no_pod) (ap as_scores unknown.no_notice) unknown.in_time quiet
            encoded) in
      (
        put_scores pending_key [] d₁,
        Takes-bind _ opening (
            consume-sent codec server true inc clock.announced [] d₁ [] a event (instance.name ∷ [])
              wf queued stored decoded affected response (accepted _)),
        rw (eq_text_refl pending_key),
        told-active clock.scored clock.announced inc json instance.name d,
        Posts-bind server true (report_of inc event (instance.name ∷ [])) opening (
            consume-Posts codec server true inc clock.announced [] d₁ [] a event
              (instance.name ∷ []) wf queued stored decoded affected response (accepted _)),
      )
