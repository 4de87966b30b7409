-- ===== src/Client/Tracking/Refines.antt =====
-- The client keeps the promise.
use porter_agent.Base.{
  ◌≡◌, Bool, ℤ, ◌≢◌, some, List, ◌∷◌, refl, Bool-cases, leb, length, inl, arith, inr,
}
use porter_agent.Text.{Text, eq_text}
use porter_agent.Redis.Keyspace.{
  Value, text, absent, Dataset, as_scores, as_members, add_scored, add_member, put_members,
  remove_member,
}
use porter_agent.Incident.{to_string, Incident}
use porter_agent.Client.Tracking.{
  Tracked, over, recovered, apply, apply_all, perform, perform_all, Report, fails, fails, recovers,
  succeeds,
}
use mathlib.Core.Bool.{true, false}
use porter_agent.Client.Resolve.Lifecycle.{
  closed, after_pod, set_pod_resolved-Takes, set_job_incident_resolved-Takes,
}
use porter_agent.Client.Keys.{
  pods_key, active_key, pending_key, pods-ne-id, pods-ne-pending, id-ne-pending, pods-ne-active,
  id-ne-active,
}
use porter_agent.Text.Equality.{eq_text_refl}
use porter_agent.Redis.{Redis}
use porter_agent.Incident.RoundTrip.{IsWellFormed}
use porter_agent.Client.Events.Storing.{with_event, add_event-full, add_event-old}
use mathlib.Core.List.{[]}
use porter_agent.Redis.Action.{Action, attempt, done}
use porter_agent.Models.{EventCodec, PodEvent}
use porter_agent.Redis.Takes.{Takes, Takes-pure, Takes-bind, Takes-attempt}
use porter_agent.Result.{ok}
use porter_agent.Client.Events.{add_event_to_incident, max_events, with_id}

abbrev pub HoldsIf : Text → Value → Bool → Type 0
HoldsIf id v true = v ≡ text id
HoldsIf id v false = v ≡ absent

-- The dataset holds the incident.
pub record Represents (inc : Incident) (s : Tracked) (d : Dataset) : Type 0 where
  pub present : d.values (to_string inc) ≢ absent
  pub stored : as_scores (d.values (to_string inc)) ≡ some s.events
  pub affected : as_members (d.values (pods_key (to_string inc))) ≡ some s.pods
  pub active :
      HoldsIf (to_string inc) (d.values (active_key inc.release_name inc.namespace)) s.active
  pub queued : as_scores (d.values pending_key) ≡ some s.notices

closed-Represents :
    (now : ℤ) (inc : Incident) (s : Tracked) (d : Dataset)
    → Represents inc s d
    → Represents inc (over (to_string inc) now s) (closed now inc s.notices d)
unfolding eq_text to_string
closed-Represents now inc s d h = record {
  present = h.present;
  stored = h.stored;
  affected = rw (eq_text_refl (to_string inc));
  active = rw (eq_text_refl (active_key inc.release_name inc.namespace));
  queued = refl;
}

put_members-Represents :
    (inc : Incident) (s : Tracked) (d : Dataset) (pod : Text) (pods : List Text)
    → Represents inc s d
    → Represents inc
        (record s { pods = pod ∷ pods })
        (put_members (pods_key (to_string inc)) (pod ∷ pods) d)
unfolding eq_text to_string
put_members-Represents inc s d pod pods h = record {
  present = h.present;
  stored = h.stored;
  affected = rw (eq_text_refl (to_string inc));
  active = h.active;
  queued = h.queued;
}

-- The event is added, and its pod is affected.
with_event-Represents :
    (inc : Incident) (s : Tracked) (d : Dataset) (score : ℤ) (json pod : Text)
    → Represents inc s d
    → Represents inc
        (record s { events = add_scored json score s.events; pods = add_member pod s.pods })
        (with_event score (to_string inc) json pod s.events s.pods d)
with_event-Represents inc s d score json pod h =
    let id = to_string inc in
    record {
      present = rw (pods-ne-id inc id, eq_text_refl id) (λ e. cc);
      stored = rw (pods-ne-id inc id, eq_text_refl id);
      affected = rw (eq_text_refl (pods_key id));
      active =
          rw
            (
              pods-ne-active id inc.release_name inc.namespace,
              id-ne-active inc inc.release_name inc.namespace,
            )
            h.active;
      queued = rw (pods-ne-pending id, id-ne-pending inc) h.queued;
    }

pub after_pod-Represents :
    (inc : Incident) (now : ℤ) (s : Tracked) (d : Dataset) (left : List Text)
    → Represents inc s d
    → Represents inc (recovered (to_string inc) now s left) (after_pod now inc s.notices d left)
after_pod-Represents inc now s d [] h = closed-Represents now inc s d h
after_pod-Represents inc now s d (pod ∷ pods) h = put_members-Represents inc s d pod pods h

-- The method ends, without a panic, in a dataset that holds the incident.
abbrev Tracks :
    (redis : Redis) → {A : Type 0} → Incident → Action redis.World A → Dataset → Tracked → Type 0
Tracks redis {A} inc m d s =
    (a : A) × (d' : Dataset) × Takes redis m d (ok a) d' × Represents inc s d'

module _ {redis : Redis} (codec : EventCodec) (text_of_event : PodEvent → Text)
    (encodes : (event : PodEvent) → codec.marshal event ≡ ok (text_of_event event)) (inc : Incident)
    (wf : IsWellFormed inc) where
  fails-Tracks :
      (score later : ℤ) (event : PodEvent) (s : Tracked) (d : Dataset)
      → Represents inc s d
      → Tracks redis inc
          (attempt (add_event_to_incident redis codec score later (to_string inc) event false))
          d
          (apply text_of_event (to_string inc) (fails score later event) s)
  unfolding apply
  fails-Tracks score later event s d h = elim (Bool-cases (leb max_events (length s.events))) [
    | inl full ↦ (
      _,
      d,
      Takes-attempt (
          add_event-full codec score later (to_string inc) event d s.events h.stored
            (ground arith)),
      rw full h,
    )
    | inr room ↦ (
      _,
      _,
      Takes-attempt (
          add_event-old codec score later inc event _ d s.events s.pods
            (encodes (with_id (to_string inc) score event)) h.stored h.affected (ground arith)),
      rw room (with_event-Represents inc s d score _ event.pod_name h),
    )
  ]

  perform-Tracks :
      (report : Report) (s : Tracked) (d : Dataset)
      → Represents inc s d
      → Tracks redis inc
          (perform redis codec (to_string inc) report)
          d
          (apply text_of_event (to_string inc) report s)
  unfolding apply perform
  perform-Tracks (fails score later event) s d h = fails-Tracks score later event s d h
  perform-Tracks (recovers now pod) s d h = (
    done tt,
    after_pod now inc s.notices d (remove_member pod s.pods),
    Takes-attempt
        (set_pod_resolved-Takes now pod inc d s.pods s.notices wf h.present h.affected h.queued),
    after_pod-Represents inc now s d (remove_member pod s.pods) h,
  )
  perform-Tracks (succeeds now) s d h = (
    done tt,
    closed now inc s.notices d,
    Takes-attempt (set_job_incident_resolved-Takes now inc d s.notices wf h.present h.queued),
    closed-Represents now inc s d h,
  )

  -- Let every event have an encoding. With the server up, take any list of reports of the pods of a
  -- well-formed incident, on a dataset that holds it as specified. The methods of the client end,
  -- and leave a dataset that holds it as the specification says: a full incident takes no further
  -- event and the rest of the reports are as if the event had not been reported, the last pod that
  -- recovers and a job that succeeds end the incident, and its end waits to be sent.
  pub perform_all-apply_all :
      (reports : List Report) (s : Tracked) (d : Dataset)
      → Represents inc s d
      → (d' : Dataset) × Takes redis (perform_all redis codec (to_string inc) reports) d (ok tt) d'
        × Represents inc (apply_all text_of_event (to_string inc) reports s) d'
  unfolding apply_all perform_all
  perform_all-apply_all [] s d h = (d, Takes-pure tt d, h)
  perform_all-apply_all (report ∷ reports) s d h =
      let (a, d₁, first, held) = perform-Tracks report s d h in
      let (d₂, rest, last) =
        perform_all-apply_all reports (apply text_of_event (to_string inc) report s) d₁ held in
      (d₂, Takes-bind _ first rest, last)
