-- ===== src/Handlers/Answers.antt =====
-- What the handlers answer for what is stored.
use porter_agent.Client.Logs.Storing.{logged, logged-log, get_logs-missing, add_logs-Takes}
use porter_agent.Incident
use porter_agent.Base.{◌≡◌, List, [], ◌∷◌, ◌++◌, some, ap, ℤ, subst, if◌then◌else◌, refl}
use porter_agent.Redis.Takes.{
  Takes, Takes-bind, Takes-attempt, Takes-pure, Takes-lift, Takes-call, Takes-or_error,
}
use mathlib.Core.List.{reverse, reverse-append}
use porter_agent.Models.{EventCodec, PodEvent}
use porter_agent.Redis.{Redis}
use porter_agent.Redis.Keyspace.{
  Scored, Dataset, as_scores, absent, scores, as_members, text-ne-absent, scores-ne-absent,
}
use porter_agent.Handlers.{
  or_500, handle_logs, handle_incident_events_by_id, events_answer, Answer, contents, error_body,
  incident_events,
}
use porter_agent.Result.{Result, ok}
use porter_agent.Client.Listing.{read_events, get_incident_events_by_id}
use porter_agent.Redis.Action.{Action, lift, ◌>>=◌}
use porter_agent.Client.Logs.{get_logs, add_logs}
use porter_agent.Client.Events.{read_event}
use porter_agent.Text.{Text, codes}
use porter_agent.Client.Keys.{logs_key, pods_key}
use porter_agent.Incident.RoundTrip.{
  IsWellFormed, new_incident_from_string-to_string, split-to_string,
}
use porter_agent.Client.Resolve.{is_empty}
use porter_agent.Incident.{to_string}
use porter_agent.Client.Resolve.Lifecycle.{incident_exists-Takes, is_incident_resolved-Takes}
use porter_agent.Client.Events.Latest.{get_latest-Takes}
use porter_agent.Redis.Laws.{exists_present, zrange_rev_all-Replies, get_text}

-- The texts are read as the events, one by one.
abbrev pub Decodes : EventCodec → List Scored → List PodEvent → Type 0
Decodes codec [] [] = Unit
Decodes codec (a ∷ l) (event ∷ events) =
    (codec.unmarshal a.member ≡ ok event) × Decodes codec l events
Decodes codec _ _ = ⊥

-- The state of an incident by the pods that it affects.
abbrev pub state_of : List Text → Text
state_of [] = codes "RESOLVED"
state_of (pod ∷ pods) = codes "ONGOING"

state_of-is_empty :
    (pods : List Text)
    → (if is_empty pods then codes "RESOLVED" else codes "ONGOING") ≡ state_of pods
state_of-is_empty [] = refl
state_of-is_empty (pod ∷ pods) = refl

module _ {redis : Redis} where
  Takes-or_500 :
      {A : Type 0} {m : Action redis.World A} (f : A → Action redis.World Answer)
      {d d₁ d₂ : Dataset} {a : A} {r : Result Answer}
      → Takes redis m d (ok a) d₁
      → Takes redis (f a) d₁ r d₂
      → Takes redis (or_500 m f) d r d₂
  unfolding or_500
  Takes-or_500 f h k = Takes-bind _ (Takes-attempt h) k

  known :
      {A : Type 0} {r : Result A} (q : Result A) (d : Dataset) → r ≡ q → Takes redis (lift r) d q d
  known {r} q d h = subst (λ x. Takes redis (lift r) d x d) h (Takes-lift r d)

  -- With the server up, logs that have been added are answered with their text, and an identifier under
  -- which nothing is stored with 404.
  pub handle_logs-answers :
      (score : ℤ) (id str_logs log_id : Text) (d : Dataset) (logs : List Scored)
      → as_scores (d.values (logs_key id)) ≡ some logs
      → d.values log_id ≡ absent
      → Takes redis
          (add_logs redis score id str_logs >>= handle_logs redis)
          d
          (ok (record { status = 200; body = contents str_logs }))
          (logged score id str_logs logs d)
        × Takes redis
            (handle_logs redis log_id)
            d
            (ok (record { status = 404; body = error_body (codes "no such logs") }))
            d
  unfolding handle_logs get_logs
  handle_logs-answers score id str_logs log_id d logs stored missing =
      let found = logged-log score id str_logs logs d in
      let (gone, told) = get_logs-missing log_id d missing in
      (
        Takes-bind _ (add_logs-Takes score id str_logs d logs stored) (
            Takes-bind _
              (Takes-attempt (
                Takes-bind _
                  (Takes-or_error _
                    (Takes-call _ (exists_present redis _ _ (text-ne-absent found))))
                  (Takes-or_error _ (Takes-call _ (get_text redis _ _ _ found)))))
              (Takes-pure _ _)),
        Takes-bind _ (Takes-attempt gone) (rw told (Takes-pure _ _)),
      )

module _ {redis : Redis} (codec : EventCodec) where
  read_events-Takes :
      (id : Text) (l : List Scored) (events : List PodEvent) (d : Dataset)
      → Decodes codec l events
      → Takes redis (read_events redis codec id l) d (ok events) d
  unfolding read_events read_event
  read_events-Takes id [] [] d h = Takes-pure [] d
  read_events-Takes id (a ∷ l) (event ∷ events) d h =
      Takes-bind _ (Takes-or_error _ (known (ok event) d h.0))
        (Takes-bind _ (read_events-Takes id l events d h.1) (Takes-pure _ d))
  read_events-Takes id [] (event ∷ events) d h = absurd h
  read_events-Takes id (a ∷ l) [] d h = absurd h

  get_events-Takes :
      (id : Text) (older : List Scored) (a : Scored) (events : List PodEvent) (d : Dataset)
      → as_scores (d.values id) ≡ some (older ++ a ∷ [])
      → Decodes codec (a ∷ reverse older) events
      → Takes redis (get_incident_events_by_id redis codec id) d (ok events) d
  unfolding get_incident_events_by_id
  get_events-Takes id older a events d stored decoded =
      Takes-bind _ (Takes-call _ (zrange_rev_all-Replies redis id d _ stored)) (
        rw (reverse-append older (a ∷ []))
          (read_events-Takes id (a ∷ reverse older) events d decoded))

  -- With the server up, a well-formed incident whose stored events can all be decoded is answered with
  -- 200: its release and its beginning are those of its identifier, it is resolved exactly if no pod is
  -- in its set, the chart, the time, the reason and the message are those of the latest event, and the
  -- events are all that are stored, the newest first.
  pub handle_incident_events-stored :
      (inc : Incident.Incident) (older : List Scored) (a : Scored) (latest : PodEvent)
      (events : List PodEvent) (pods : List Text) (d : Dataset)
      → IsWellFormed inc
      → d.values (to_string inc) ≡ scores (older ++ a ∷ [])
      → Decodes codec (a ∷ reverse older) (latest ∷ events)
      → as_members (d.values (pods_key (to_string inc))) ≡ some pods
      → Takes redis
          (handle_incident_events_by_id redis codec (to_string inc))
          d
          (ok (record {
            status = 200;
            body = incident_events (record {
              incident_id = to_string inc;
              release_name = inc.release_name;
              chart_name = latest.chart_name;
              created_at = inc.timestamp;
              updated_at = latest.timestamp;
              latest_state = state_of pods;
              latest_reason = latest.reason;
              latest_message = latest.message;
              events = latest ∷ events;
            });
          }))
          d
  unfolding handle_incident_events_by_id events_answer get_incident_events_by_id
  handle_incident_events-stored inc older a latest events pods d wf stored decoded affected =
      Takes-or_500 _ (incident_exists-Takes (to_string inc) d (scores-ne-absent stored)) (
        Takes-or_500 _
          (get_events-Takes (to_string inc) older a (latest ∷ events) d (ap as_scores stored)
            decoded)
          (Takes-or_500 _ (is_incident_resolved-Takes (to_string inc) d pods affected) (
            Takes-or_500 _
              (get_latest-Takes codec (to_string inc) older a latest d (ap as_scores stored)
                decoded.0)
              (Takes-or_500 _ (known (ok inc) d (new_incident_from_string-to_string inc wf)) (
                rw (split-to_string inc wf) (
                  Takes-bind _ (Takes-lift _ d) (
                    Takes-bind _ (Takes-lift _ d)
                      (rw (state_of-is_empty pods) (Takes-pure _ d)))))))))
