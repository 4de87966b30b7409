-- ===== src/Controller/Deleted/Closes.antt =====
-- The pass over the deleted pods keeps the promise of the client, and ends an incident whose pods are all
-- gone.
use porter_agent.Incident.{Incident, to_string}
use mathlib.Core.List.{Perm, Mem, Memᴰ, mem-cons_self, mem-cons_of_mem}
use mathlib.Core.List.Perm
use mathlib.Core.List.Memᴰ.{head, tail}
use mathlib.Core.Bool.{Bool-set}
use mathlib.Core.Logic.{∥∥₁_elim}
use porter_agent.Base.{
  ◌≡◌, List, [], All, ℤ, false, true, ◌∷◌, Bool-cases, inl, inr, ap, subst, refl, sym, ◌≢◌, All-map,
  some, ◌∙◌,
}
use porter_agent.Kube.{Lookup, Pod, Cluster, found, failure, not_found}
use porter_agent.Text.{Text, eq_text}
use porter_agent.Redis.{Redis}
use porter_agent.Client.Tracking.{Tracked, recovered}
use porter_agent.Redis.Keyspace.{remove_member, is_member, Dataset, as_members, absent}
use porter_agent.Incident.RoundTrip.{IsWellFormed}
use porter_agent.Controller.Deleted.{check_pod, check_pods, check_incidents, check_incident}
use porter_agent.Text.Equality.{eq_text_iff, eq_text_refl}
use porter_agent.Client.Tracking.Refines.{Represents, after_pod-Represents, HoldsIf}
use porter_agent.Redis.Takes.{Takes, Takes-pure, Takes-bind, Takes-attempt, Takes-call}
use porter_agent.Result.{ok}
use porter_agent.Client.Resolve.Lifecycle.{after_pod, object_of-Takes, set_pod_resolved-Takes}
use porter_agent.Client.Listing.{get_pods_for_incident}
use porter_agent.Client.Keys.{pods_key, active_key}
use porter_agent.Redis.Laws.{smembers-Replies}

-- The pods that the API server does not find have recovered, one after another.
missing_one : Lookup Pod → Text → ℤ → Text → Tracked → Tracked
missing_one (found instance) id now pod s = s
missing_one (failure e) id now pod s = s
missing_one not_found id now pod s = recovered id now s (remove_member pod s.pods)

pub missing_all : (Text → Lookup Pod) → Text → ℤ → List Text → Tracked → Tracked
unfolding missing_one
missing_all get_pod id now [] s = s
missing_all get_pod id now (pod ∷ pods) s =
    missing_all get_pod id now pods (missing_one (get_pod pod) id now pod s)

module _ {redis : Redis} (cluster : Cluster redis.World) (now : ℤ) (inc : Incident)
    (wf : IsWellFormed inc) where
  check_pod-Represents :
      (pod : Text) (answer : Lookup Pod) (s : Tracked) (d : Dataset)
      → Represents inc s d
      → (d' : Dataset) × Takes redis
          (check_pod redis cluster now (to_string inc) pod answer)
          d
          (ok tt)
          d'
        × Represents inc (missing_one answer (to_string inc) now pod s) d'
  unfolding check_pod missing_one
  check_pod-Represents pod (found instance) s d h = (d, Takes-pure tt d, h)
  check_pod-Represents pod (failure e) s d h = (d, Takes-pure tt d, h)
  check_pod-Represents pod not_found s d h = (
    after_pod now inc s.notices d (remove_member pod s.pods),
    Takes-bind _
        (Takes-attempt
          (set_pod_resolved-Takes now pod inc d s.pods s.notices wf h.present h.affected h.queued))
        (Takes-pure tt _),
    after_pod-Represents inc now s d (remove_member pod s.pods) h,
  )

  -- With the server up, take a list of pods of a well-formed incident, on a dataset that holds it
  -- as specified. The pass ends, and the dataset holds the incident as if exactly those pods of the
  -- list had recovered, in its order, of which the API server says that they are not found; pods
  -- that are there and pods for which it gives an error change nothing.
  pub check_pods-missing_all :
      (pods : List Text) (s : Tracked) (d : Dataset)
      → Represents inc s d
      → (d' : Dataset) × Takes redis
          (check_pods redis cluster now (to_string inc) pods)
          d
          (ok tt)
          d'
        × Represents inc (missing_all (cluster.get_pod inc.namespace) (to_string inc) now pods s) d'
  unfolding check_pods missing_all
  check_pods-missing_all [] s d h = (d, Takes-pure tt d, h)
  check_pods-missing_all (pod ∷ pods) s d h =
      let answer = cluster.get_pod inc.namespace pod in
      let (d₁, first, held) = check_pod-Represents pod answer s d h in
      let (d₂, rest, last) =
        check_pods-missing_all pods (missing_one answer (to_string inc) now pod s) d₁ held in
      (d₂, Takes-bind _ (object_of-Takes inc d wf) (Takes-bind _ first rest), last)

-- Nothing of the incident is affected, and it is not active.
abbrev pub IsOver : Tracked → Type 0
IsOver s = (s.pods ≡ []) × (s.active ≡ false)

abbrev Covers : List Text → List Text → Type 0
Covers l = All (λ m. is_member m l ≡ true)

is_member_rest :
    (m x : Text) (l : List Text)
    → is_member m (x ∷ l) ≡ true
    → eq_text m x ≡ false
    → is_member m l ≡ true
unfolding is_member
is_member_rest m x l h apart = elim (Bool-cases (eq_text x m)) [
  | inl same ↦ absurd (cc (ap (eq_text m) ((eq_text_iff x m).0 same), eq_text_refl m))
  | inr other ↦ (rw other at h)
]

remove_member-Covers :
    (x : Text) (l pods : List Text) → Covers (x ∷ l) pods → Covers l (remove_member x pods)
unfolding remove_member is_member
remove_member-Covers x l [] h = tt
remove_member-Covers x l (m ∷ pods) (here, h) = elim (Bool-cases (eq_text m x)) [
  | inl same ↦ rw same (remove_member-Covers x l pods h)
  | inr other ↦ rw other ((is_member_rest m x l here other, remove_member-Covers x l pods h))
]

recovered-IsOver :
    (id : Text) (now : ℤ) (s : Tracked) (left : List Text)
    → left ≡ []
    → IsOver (recovered id now s left)
recovered-IsOver id now s [] h = (refl, refl)
recovered-IsOver id now s (m ∷ left) h = absurd (cc h)

Covers-nil : (pods : List Text) → Covers [] pods → pods ≡ []
unfolding is_member
Covers-nil [] h = refl
Covers-nil (m ∷ pods) h = absurd (cc h.0)

recovered-pods :
    (id : Text) (now : ℤ) (s : Tracked) (left : List Text) → (recovered id now s left).pods ≡ left
recovered-pods id now s [] = refl
recovered-pods id now s (m ∷ left) = refl

-- When the pods of a list that covers the affected ones are all gone, the incident is over.
missing_all-IsOver :
    (get_pod : Text → Lookup Pod) (id : Text) (now : ℤ) (x : Text) (l : List Text) (s : Tracked)
    → All (λ pod. get_pod pod ≡ not_found) (x ∷ l)
    → Covers (x ∷ l) s.pods
    → IsOver (missing_all get_pod id now (x ∷ l) s)
unfolding missing_all missing_one
missing_all-IsOver get_pod id now x [] s gone covers =
    rw gone.0 (recovered-IsOver id now s _ (Covers-nil _ (remove_member-Covers x [] s.pods covers)))
missing_all-IsOver get_pod id now x (y ∷ l) s gone covers =
    let left = remove_member x s.pods in
    subst (λ answer. IsOver (missing_all get_pod id now (y ∷ l) (missing_one answer id now x s)))
      (sym gone.0)
      (missing_all-IsOver get_pod id now y l (recovered id now s left) gone.1 (
        subst (Covers (y ∷ l)) (sym (recovered-pods id now s left))
          (remove_member-Covers x (y ∷ l) s.pods covers)))

Mem-is_member : (m : Text) (l : List Text) → Memᴰ m l → is_member m l ≡ true
unfolding is_member
Mem-is_member m [] h = elim h [ ]
Mem-is_member m (x ∷ l) (head e) = rw (sym e, eq_text_refl m)
Mem-is_member m (x ∷ l) (tail h) = elim (Bool-cases (eq_text x m)) [
  | inl same ↦ rw same
  | inr other ↦ rw (other, Mem-is_member m l h)
]

Subset-Covers : (r l : List Text) → ((m : Text) → Mem m l → Mem m r) → Covers r l
Subset-Covers r [] h = tt
Subset-Covers r (m ∷ l) h = (
  ∥∥₁_elim (h m mem-cons_self) (Bool-set (is_member m r) true) (Mem-is_member m r),
  Subset-Covers r l (λ x k. h x (mem-cons_of_mem m k)),
)

Perm-Covers : (r l : List Text) → Perm r l → Covers r l
Perm-Covers r l p = Subset-Covers r l (Perm.subset (Perm.symm p))

-- The pods of a set in any order, all of them gone.
all_gone :
    (get_pod : Text → Lookup Pod) (id : Text) (now : ℤ) (l : List Text) (s : Tracked)
    → Perm l s.pods
    → s.pods ≢ []
    → ((pod : Text) → is_member pod s.pods ≡ true → get_pod pod ≡ not_found)
    → IsOver (missing_all get_pod id now l s)
all_gone get_pod id now [] s p n gone = absurd (n (sym (Perm.nil-eq p)))
all_gone get_pod id now (x ∷ l) s p n gone =
    missing_all-IsOver get_pod id now x l s
      (All-map (x ∷ l) gone (Perm-Covers s.pods (x ∷ l) (Perm.symm p)))
      (Perm-Covers (x ∷ l) s.pods p)

module _ {redis : Redis} (cluster : Cluster redis.World) (now : ℤ) (inc : Incident) where
  -- With the server up, let a dataset hold a well-formed incident that affects some pod, and let the API
  -- server find none of the affected pods. The pass over the incident ends, no pod is affected any more,
  -- and the release has no active incident, in whatever order the server lists the pods.
  pub check_incidents-IsOver :
      (s : Tracked) (d : Dataset)
      → IsWellFormed inc
      → Represents inc s d
      → s.pods ≢ []
      → ((pod : Text) → is_member pod s.pods ≡ true → cluster.get_pod inc.namespace pod ≡ not_found)
      → (d' : Dataset) × Takes redis
          (check_incidents redis cluster now (to_string inc ∷ []))
          d
          (ok tt)
          d'
        × (as_members (d'.values (pods_key (to_string inc))) ≡ some [])
        × (d'.values (active_key inc.release_name inc.namespace) ≡ absent)
  unfolding check_incidents check_incident get_pods_for_incident
  check_incidents-IsOver s d wf h n gone =
      let id = to_string inc in
      let l = redis.member_order (pods_key id) s.pods in
      let (d', taken, held) = check_pods-missing_all cluster now inc wf l s d h in
      let (none_left, ended) =
        all_gone (cluster.get_pod inc.namespace) id now l s
          (redis.member_order-perm (pods_key id) s.pods) n gone in
      (
        d',
        Takes-bind _
            (Takes-attempt
              (Takes-call _ (smembers-Replies redis (pods_key id) d s.pods h.affected)))
            (Takes-bind _ taken (Takes-pure tt d')),
        held.affected ∙ ap some none_left,
        subst (HoldsIf id (d'.values (active_key inc.release_name inc.namespace))) ended
            held.active,
      )
