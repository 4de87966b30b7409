-- ===== src/Consumer/Rounds.antt =====
-- What many rounds of the consumer do to the work queue.
use porter_agent.Incident
use porter_agent.HttpClient
use porter_agent.Base.{◌≡◌, List, ◌∷◌, Bool, All, ◌∙◌, ap, ◌++◌, false, some, All-map, ℤ, refl, sym}
use porter_agent.Redis.{Redis}
use porter_agent.Redis.Keyspace.{
  Scored, Value, Dataset, absent, put_scores, scores, put_scores-other, as_members, put,
}
use porter_agent.Models.{EventCodec, PodEvent}
use porter_agent.Consumer.{Server, start, consume}
use mathlib.Core.List.{[]}
use porter_agent.Client.Keys.{pending_key, pending-ne-id, pods_key, pending-ne-pods}
use porter_agent.Text.Equality.{eq_text_refl}
use porter_agent.Consumer.Delivery.{payload_of, consume-gone, consume-sent, Answers, consume-failed}
use porter_agent.Incident.{to_string}
use porter_agent.Redis.Takes.{Takes, Takes-pure, Takes-bind}
use porter_agent.Result.{ok, Error, error_text}
use porter_agent.Text.{Text, eq_text, contains, codes}
use porter_agent.Incident.RoundTrip.{IsWellFormed}
use porter_agent.Client.Resolve.Details.{report_of}
use porter_agent.Redis.Action.{reply, failed}
use porter_agent.Redis.Order.{IsLeast}

-- One pulse for each item.
abbrev pub pulse_for : {A : Type 0} → List A → List (Unit {0})
pulse_for [] = []
pulse_for (a ∷ l) = tt ∷ pulse_for l

-- The value of the queue with these items.
abbrev pub queue_of : List Scored → Value
queue_of [] = absent
queue_of (a ∷ l) = scores (a ∷ l)

rest_queued :
    (rest : List Scored) (d : Dataset)
    → (put_scores pending_key rest d).values pending_key ≡ queue_of rest
rest_queued [] d = rw (eq_text_refl pending_key)
rest_queued (a ∷ rest) d = rw (eq_text_refl pending_key)

module _ (redis : Redis) (codec : EventCodec) (server : Server redis.World) where
  -- The item is the notification of an incident that is gone, or of one whose report the porter server
  -- accepts.
  pub data IsDeliverable (d : Dataset) (a : Scored) : Type 0 where
    gone :
        (is_new : Bool) (inc : Incident.Incident)
        → a.member ≡ payload_of is_new (to_string inc)
        → d.values (to_string inc) ≡ absent
        → IsDeliverable d a
    accepted :
        (is_new : Bool) (inc : Incident.Incident) (older : List Scored) (b : Scored)
        (latest : PodEvent) (pods : List Text) (response : HttpClient.Response)
        → a.member ≡ payload_of is_new (to_string inc)
        → IsWellFormed inc
        → d.values (to_string inc) ≡ scores (older ++ b ∷ [])
        → codec.unmarshal b.member ≡ ok latest
        → as_members (d.values (pods_key (to_string inc))) ≡ some pods
        → ((d' : Dataset)
            → Answers redis server is_new (report_of inc latest pods) (reply response) d')
        → IsDeliverable d a

  -- The queue does not matter.
  IsDeliverable-put_scores :
      (d : Dataset) (rest : List Scored) (a : Scored)
      → IsDeliverable d a
      → IsDeliverable (put_scores pending_key rest d) a
  IsDeliverable-put_scores d rest a (gone is_new inc e absent_id) =
      gone is_new inc e
        (put_scores-other pending_key rest d (to_string inc) (pending-ne-id inc) ∙ absent_id)
  IsDeliverable-put_scores d rest a
        (accepted is_new inc older b latest pods response e wf stored decoded affected h) =
      accepted is_new inc older b latest pods response e wf
        (put_scores-other pending_key rest d (to_string inc) (pending-ne-id inc) ∙ stored) decoded
        (ap as_members (
            put_scores-other pending_key rest d (pods_key (to_string inc))
              (pending-ne-pods (to_string inc)))
          ∙ affected)
        h

  consume-IsDeliverable :
      (d : Dataset) (a : Scored) (rest : List Scored)
      → d.values pending_key ≡ scores (a ∷ rest)
      → IsDeliverable d a
      → Takes redis (consume redis codec server) d (ok tt) (put_scores pending_key rest d)
  consume-IsDeliverable d a rest queued (gone is_new inc e absent_id) =
      consume-gone codec server is_new inc a.score rest d
        (queued ∙ ap (λ m. scores (record { member = m; score = a.score } ∷ rest)) e) absent_id
  consume-IsDeliverable d a rest queued
        (accepted is_new inc older b latest pods response e wf stored decoded affected h) =
      consume-sent codec server is_new inc a.score rest d older b latest pods wf
        (queued ∙ ap (λ m. scores (record { member = m; score = a.score } ∷ rest)) e) stored decoded
        affected response (h _)

  -- With the server up, let every item of the queue be the notification of an incident that is not
  -- stored any more, or of a stored one whose report the porter server accepts. As many rounds as there
  -- are items empty the queue, and no other key changes.
  pub start-drains :
      (items : List Scored) (d : Dataset)
      → d.values pending_key ≡ queue_of items
      → All (IsDeliverable d) items
      → (d' : Dataset) × Takes redis (start redis codec server (pulse_for items)) d (ok tt) d'
        × (d'.values pending_key ≡ absent)
        × ((k : Text) → eq_text pending_key k ≡ false → d'.values k ≡ d.values k)
  unfolding start
  start-drains [] d queued h = (d, Takes-pure tt d, queued, λ k apart. refl)
  start-drains (a ∷ rest) d queued (first, others) =
      let d₁ = put_scores pending_key rest d in
      let (d', taken, empty, same) =
        start-drains rest d₁ (rest_queued rest d)
          (All-map rest (λ b. IsDeliverable-put_scores d rest b) others) in
      (
        d',
        Takes-bind _ (consume-IsDeliverable d a rest queued first) taken,
        empty,
        λ k apart. same k apart ∙ put_scores-other pending_key rest d k apart,
      )

-- The notification of an incident, with its score.
abbrev pub waiting : Bool → Incident.Incident → ℤ → Scored
waiting is_new inc score = record { member = payload_of is_new (to_string inc); score = score }

module _ (a : Scored) (rest : List Scored) where
  requeued : Dataset → Dataset
  requeued d = put pending_key (scores (a ∷ rest)) (put_scores pending_key rest d)

  requeued-other :
      (d : Dataset) (k : Text) → eq_text pending_key k ≡ false → (requeued d).values k ≡ d.values k
  unfolding requeued
  requeued-other d k apart = rw apart (put_scores-other pending_key rest d k apart)

module _ (a : Scored) (inc : Incident.Incident) (rest older : List Scored) (b : Scored)
    (pods : List Text) where
  -- The notification waits at the front of the queue, for an incident that is stored.
  pub record Waits (d : Dataset) : Type 0 where
    pub queued : d.values pending_key ≡ scores (a ∷ rest)
    pub stored : d.values (to_string inc) ≡ scores (older ++ b ∷ [])
    pub affected : as_members (d.values (pods_key (to_string inc))) ≡ some pods

  requeued-Waits : (d : Dataset) → Waits d → Waits (requeued a rest d)
  unfolding requeued
  requeued-Waits d h = record {
    queued = rw (eq_text_refl pending_key);
    stored = requeued-other a rest d (to_string inc) (pending-ne-id inc) ∙ h.stored;
    affected =
        ap as_members
          (requeued-other a rest d (pods_key (to_string inc)) (pending-ne-pods (to_string inc)))
        ∙ h.affected;
  }

module _ {redis : Redis} (codec : EventCodec) (server : Server redis.World) (is_new : Bool)
    (inc : Incident.Incident) (score : ℤ) (rest older : List Scored) (b : Scored)
    (latest : PodEvent) (pods : List Text) (e : Error) where
  -- With the server up, let the least item of the queue be the notification of a well-formed incident
  -- that is stored, with a last event that can be decoded, and let the porter server not be reached,
  -- with a failure that does not speak of a non-existent incident. After any number of rounds the queue
  -- holds the same items, so the notification is not lost and nothing behind it is sent; no other key
  -- changes.
  pub start-unreachable :
      (pulses : List (Unit {0})) (d : Dataset)
      → IsWellFormed inc
      → codec.unmarshal b.member ≡ ok latest
      → contains (error_text e) (codes "non-existent incident") ≡ false
      → ((d' : Dataset) → Answers redis server is_new (report_of inc latest pods) (failed e) d')
      → IsLeast (waiting is_new inc score) rest
      → Waits (waiting is_new inc score) inc rest older b pods d
      → (d' : Dataset) × Takes redis (start redis codec server pulses) d (ok tt) d'
        × (d'.values pending_key ≡ d.values pending_key)
        × ((k : Text) → eq_text pending_key k ≡ false → d'.values k ≡ d.values k)
  unfolding start requeued
  start-unreachable [] d wf decoded other h least waits =
      (d, Takes-pure tt d, refl, λ k apart. refl)
  start-unreachable (pulse ∷ pulses) d wf decoded other h least waits =
      let a = waiting is_new inc score in
      let again = requeued-Waits a inc rest older b pods d waits in
      let (d', taken, queue, same) =
        start-unreachable pulses (requeued a rest d) wf decoded other h least again in
      (
        d',
        Takes-bind _
            (consume-failed codec server is_new inc score rest d older b latest pods wf waits.queued
              waits.stored decoded waits.affected e other (h _) least)
            taken,
        queue ∙ again.queued ∙ sym waits.queued,
        λ k apart. same k apart ∙ requeued-other a rest d k apart,
      )
