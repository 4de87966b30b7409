-- ===== src/Client/Resolve/Lifecycle.antt =====
-- What resolving a pod or a job does to the records of its incident.
use porter_agent.Base.{ℤ, ◌≡◌, ◌≢◌, some, List, [], ◌∷◌, true, none, ◌++◌, false, sym, refl}
use mathlib.Core.List.{Perm, cons-ne-nil}
use mathlib.Core.List.Perm
use porter_agent.Text.{Text, codes, eq_text}
use porter_agent.Result.{ok, Error}
use porter_agent.Incident.{Incident, to_string, new_incident_from_string}
use porter_agent.Incident.RoundTrip.{IsWellFormed, new_incident_from_string-to_string}
use porter_agent.Redis.{Redis}
use porter_agent.Redis.Keyspace.{
  Dataset, Scored, absent, as_scores, put, delete, put_members, scores, add_scored, update-update,
  as_members, remove_member, as_members-put_members,
}
use porter_agent.Redis.Takes.{Takes, Takes-bind, Takes-call, Takes-or_error, Takes-pure}
use porter_agent.Client.Keys.{pods_key, active_key, pending_key}
use porter_agent.Client.Events.{incident_exists, object_of}
use porter_agent.Client.Queue.{append_to_notify_work_queue}
use porter_agent.Client.Resolve.{
  close_incident, is_empty, finish_pod, set_pod_resolved, set_job_incident_resolved,
  is_incident_resolved,
}
use porter_agent.Redis.Action.{or_error, call}
use porter_agent.Redis.Laws.{
  exists_present, zadd-Replies, del-Replies, smembers-Replies, srem-Replies,
}

-- The records of the incident are gone and its resolution waits to be sent. `queue` is the work queue
-- before.
abbrev pub closed : ℤ → Incident → List Scored → Dataset → Dataset
closed now inc queue d =
    put pending_key (scores (add_scored (codes "resolved:" ++ to_string inc) now queue))
      (delete (active_key inc.release_name inc.namespace) (delete (pods_key (to_string inc)) d))

-- After a pod has been taken from the set, the rest of the affected pods decides.
abbrev pub after_pod : ℤ → Incident → List Scored → Dataset → List Text → Dataset
after_pod now inc queue d [] = closed now inc queue d
after_pod now inc queue d (pod ∷ pods) = put_members (pods_key (to_string inc)) (pod ∷ pods) d

delete-delete : (k : Text) (d : Dataset) → delete k (delete k d) ≡ delete k d
delete-delete k d = λ i. record d {
  values = update-update k absent d.values i;
  deadlines = update-update k none d.deadlines i;
}

module _ (redis : Redis) where
  -- The tests of `len(pods) == 0` do not depend on the order of the set.
  pub is_empty-member_order :
      (k : Text) (l : List Text) → is_empty (redis.member_order k l) ≡ is_empty l
  is_empty-member_order k [] = rw (Perm.eq-nil (redis.member_order-perm k []))
  is_empty-member_order k (m ∷ l) =
      not_empty (redis.member_order k (m ∷ l)) (redis.member_order-perm k (m ∷ l))
    where
      not_empty : (r : List Text) → Perm r (m ∷ l) → is_empty r ≡ false
      not_empty [] p = absurd (cons-ne-nil m l (sym (Perm.nil-eq p)))
      not_empty (x ∷ r) p = refl

module _ {redis : Redis} where
  pub incident_exists-Takes :
      (id : Text) (d : Dataset)
      → d.values id ≢ absent
      → Takes redis (incident_exists redis id) d (ok true) d
  unfolding incident_exists
  incident_exists-Takes id d h =
      Takes-bind _ (Takes-or_error _ (Takes-call _ (exists_present redis id d h)))
        (Takes-pure true d)

  pub object_of-Takes :
      (inc : Incident) (d : Dataset)
      → IsWellFormed inc
      → Takes redis (object_of (new_incident_from_string (to_string inc))) d (ok inc) d
  unfolding object_of
  object_of-Takes inc d h = rw (new_incident_from_string-to_string inc h) (Takes-pure inc d)

  pub append-Takes :
      (now : ℤ) (packed : Text) (d : Dataset) (queue : List Scored)
      → as_scores (d.values pending_key) ≡ some queue
      → Takes redis
          (append_to_notify_work_queue redis now packed)
          d
          (ok tt)
          (put pending_key (scores (add_scored packed now queue)) d)
  unfolding append_to_notify_work_queue
  append-Takes now packed d queue h =
      Takes-call _ (zadd-Replies redis pending_key now packed d queue h)

  close_incident-Takes :
      (now : ℤ) (inc : Incident) (d : Dataset) (queue : List Scored)
      → as_scores (d.values pending_key) ≡ some queue
      → Takes redis
          (close_incident redis now (to_string inc) inc)
          (delete (pods_key (to_string inc)) d)
          (ok tt)
          (closed now inc queue d)
  unfolding close_incident eq_text
  close_incident-Takes now inc d queue h =
      Takes-bind _ (Takes-or_error _ (Takes-call _ (del-Replies redis _ _)))
        (Takes-or_error _ (append-Takes now _ _ queue h))

  pub smembers-Takes :
      (k : Text) (d : Dataset) (l : List Text) (f : Error → Error)
      → as_members (d.values k) ≡ some l
      → Takes redis (or_error (call (redis.smembers k)) f) d (ok (redis.member_order k l)) d
  smembers-Takes k d l f h = Takes-or_error f (Takes-call _ (smembers-Replies redis k d l h))

  -- The branch on the pods that are left.
  finish_pod-Takes :
      (now : ℤ) (inc : Incident) (d : Dataset) (queue : List Scored) (left pods : List Text)
      → IsWellFormed inc
      → as_scores (d.values pending_key) ≡ some queue
      → is_empty pods ≡ is_empty left
      → Takes redis
          (finish_pod redis now (to_string inc) pods)
          (put_members (pods_key (to_string inc)) left d)
          (ok tt)
          (after_pod now inc queue d left)
  unfolding finish_pod
  finish_pod-Takes now inc d queue [] [] wf h e =
      Takes-bind _ (Takes-or_error _ (Takes-call _ (del-Replies redis _ _))) (
        Takes-bind _ (object_of-Takes inc _ wf)
          (rw delete-delete (close_incident-Takes now inc d queue h)))
  finish_pod-Takes now inc d queue [] (p ∷ pods) wf h e = cc
  finish_pod-Takes now inc d queue (q ∷ left) [] wf h e = cc
  finish_pod-Takes now inc d queue (q ∷ left) (p ∷ pods) wf h e = Takes-pure tt _

  -- With the server up, resolving a pod of a well-formed incident that is stored takes the pod out
  -- of the set of affected pods. If none is left, the set and the key of the active incident are
  -- deleted and the resolution waits to be sent; otherwise nothing else changes.
  pub set_pod_resolved-Takes :
      (now : ℤ) (pod : Text) (inc : Incident) (d : Dataset) (pods : List Text) (queue : List Scored)
      → IsWellFormed inc
      → d.values (to_string inc) ≢ absent
      → as_members (d.values (pods_key (to_string inc))) ≡ some pods
      → as_scores (d.values pending_key) ≡ some queue
      → Takes redis
          (set_pod_resolved redis now pod (to_string inc))
          d
          (ok tt)
          (after_pod now inc queue d (remove_member pod pods))
  unfolding set_pod_resolved eq_text
  set_pod_resolved-Takes now pod inc d pods queue wf here affected waiting =
      Takes-bind _ (incident_exists-Takes (to_string inc) d here) (
        Takes-bind _ (Takes-or_error _ (Takes-call _ (srem-Replies redis _ pod d pods affected))) (
          Takes-bind _
            (smembers-Takes _ _ (remove_member pod pods) _
              (as_members-put_members (pods_key (to_string inc)) _ d))
            (finish_pod-Takes now inc d queue (remove_member pod pods) _ wf waiting
              (is_empty-member_order redis _ _))))

  -- With the server up, resolving the job of a well-formed incident that is stored deletes its set
  -- of affected pods, whatever is in it, and the key of the active incident, and the resolution
  -- waits to be sent.
  pub set_job_incident_resolved-Takes :
      (now : ℤ) (inc : Incident) (d : Dataset) (queue : List Scored)
      → IsWellFormed inc
      → d.values (to_string inc) ≢ absent
      → as_scores (d.values pending_key) ≡ some queue
      → Takes redis
          (set_job_incident_resolved redis now (to_string inc))
          d
          (ok tt)
          (closed now inc queue d)
  unfolding set_job_incident_resolved
  set_job_incident_resolved-Takes now inc d queue wf here waiting =
      Takes-bind _ (incident_exists-Takes (to_string inc) d here) (
        Takes-bind _ (Takes-or_error _ (Takes-call _ (del-Replies redis _ _)))
          (Takes-bind _ (object_of-Takes inc _ wf) (close_incident-Takes now inc d queue waiting)))

  -- An incident is resolved when no pod is in its set.
  pub is_incident_resolved-Takes :
      (id : Text) (d : Dataset) (pods : List Text)
      → as_members (d.values (pods_key id)) ≡ some pods
      → Takes redis (is_incident_resolved redis id) d (ok (is_empty pods)) d
  unfolding is_incident_resolved
  is_incident_resolved-Takes id d pods h =
      Takes-bind _ (smembers-Takes _ d pods _ h)
        (rw (is_empty-member_order redis (pods_key id) pods) (Takes-pure _ _))
