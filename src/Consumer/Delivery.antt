-- ===== src/Consumer/Delivery.antt =====
-- What one round of the consumer does to the item that it takes from the work queue.
use porter_agent.Base.{
  ℤ, Bool, true, false, ◌≡◌, refl, List, [], ◌∷◌, ◌++◌, if◌then◌else◌, subst, ◌∙◌, some, sym, ap,
}
use porter_agent.Text.{Text, codes, has_prefix, trim_prefix, contains}
use mathlib.Core.Path.{subst₂}
use porter_agent.Models
use porter_agent.Models.{EventCodec, PodEvent}
use porter_agent.Incident
use porter_agent.HttpClient
use porter_agent.HttpClient.{post, post_request}
use porter_agent.Redis.{Redis}
use porter_agent.Redis.Laws.{Replies}
use porter_agent.Redis.Takes.{
  Takes, Takes-bind, Takes-bind_err, Takes-call, Takes-pure, Takes-lift, Takes-attempt,
}
use porter_agent.Client.Resolve.Details.{
  get_details-Takes, get_details-missing, report_of, missing_details, missing_details-text,
}
use porter_agent.Client.Queue.Delivery.{get_item-least, get_item-empty, requeue-Takes}
use porter_agent.Client.Resolve.{get_incident_details}
use porter_agent.Consumer.{
  Server, read_payload, consume, notify, after_notify, deliver, notify_path,
  do_http_post_notify_new, do_http_post_notify_resolved,
}
use porter_agent.Redis.Action.{
  Reply, reply, failed, lift, ◌>>◌, pure, Attempt, attempted, done, attempt,
}
use porter_agent.Result.{Result, ok, err, Error, error_text}
use porter_agent.Redis.Keyspace.{
  Dataset, absent, Scored, scores, put_scores, put_scores-other, as_members, put,
}
use porter_agent.Client.Keys.{pending_key, pending-ne-id, pods_key, pending-ne-pods}
use porter_agent.Incident.{to_string}
use porter_agent.Incident.RoundTrip.{IsWellFormed}
use porter_agent.Redis.Order.{IsLeast}

-- The payload of a notification, as `AddEventToIncident` and the resolving methods write it.
abbrev pub payload_of : Bool → Text → Text
payload_of is_new id = if is_new then codes "new:" ++ id else codes "resolved:" ++ id

-- A payload is read as the notification that it was written for.
pub read_payload-payload_of :
    (is_new : Bool) (id : Text)
    → read_payload (payload_of is_new id) ≡ record { new_incident = is_new; incident_id = id }
unfolding read_payload has_prefix trim_prefix
read_payload-payload_of true id = refl
read_payload-payload_of false id = refl

abbrev pub endpoint : Bool → Text
endpoint is_new = if is_new then codes "notify_new" else codes "notify_resolved"

-- The error of `Post`, if any.
abbrev pub posted : Reply HttpClient.Response → Result (Unit {0})
posted (reply response) = ok tt
posted (failed e) = err e

-- The transport answers `answer` to the request for a notification, and leaves the dataset alone.
pub record Answers (redis : Redis) (server : Server redis.World) (is_new : Bool)
    (incident : Models.Incident) (answer : Reply HttpClient.Response) (d : Dataset) : Type 0 where
  pub json_body : Text
  pub marshalled : server.transport.marshal incident ≡ ok json_body
  pub checked :
      server.transport.check_url (server.client.host ++ notify_path server (endpoint is_new))
      ≡ ok tt
  pub sent :
      Replies redis.up redis.data_of
        (server.transport.send
          (post_request server.client (notify_path server (endpoint is_new)) json_body))
        d
        answer
        d

pub known-Takes :
    {redis : Redis} {A : Type 0} {r : Result A} {a : A} {d : Dataset}
    → r ≡ ok a
    → Takes redis (lift r) d (ok a) d
known-Takes {redis} {r} {d} h = subst (λ q. Takes redis (lift r) d q d) h (Takes-lift r d)

module _ {redis : Redis} (codec : EventCodec) (server : Server redis.World) where
  post-Takes :
      (is_new : Bool) (incident : Models.Incident) (answer : Reply HttpClient.Response)
      (d : Dataset)
      → Answers redis server is_new incident answer d
      → Takes redis
          (post server.transport server.client (notify_path server (endpoint is_new)) incident
            >> pure tt)
          d
          (posted answer)
          d
  unfolding post
  post-Takes is_new incident (reply response) d h =
      Takes-bind _
        (Takes-bind _ (known-Takes h.marshalled)
          (Takes-bind _ (known-Takes h.checked) (Takes-call _ h.sent)))
        (Takes-pure tt d)
  post-Takes is_new incident (failed e) d h = Takes-bind_err _ (
      Takes-bind _ (known-Takes h.marshalled)
        (Takes-bind _ (known-Takes h.checked) (Takes-call _ h.sent)))

  -- The notification of an incident that is there ends as the transport answers.
  notify-Takes :
      (is_new : Bool) (id : Text) (incident : Models.Incident) (answer : Reply HttpClient.Response)
      (d : Dataset)
      → Takes redis (get_incident_details redis codec id) d (ok incident) d
      → Answers redis server is_new incident answer d
      → Takes redis
          (notify redis codec server (record { new_incident = is_new; incident_id = id }))
          d
          (posted answer)
          d
  unfolding notify do_http_post_notify_new do_http_post_notify_resolved
  notify-Takes true id incident answer d found h =
      Takes-bind _ found (post-Takes true incident answer d h)
  notify-Takes false id incident answer d found h =
      Takes-bind _ found (post-Takes false incident answer d h)

  notify-missing :
      (is_new : Bool) (id : Text) (d : Dataset)
      → d.values id ≡ absent
      → Takes redis
          (notify redis codec server (record { new_incident = is_new; incident_id = id }))
          d
          (err (missing_details id))
          d
  unfolding notify do_http_post_notify_new do_http_post_notify_resolved
  notify-missing true id d gone = Takes-bind_err _ (get_details-missing codec id d gone)
  notify-missing false id d gone = Takes-bind_err _ (get_details-missing codec id d gone)

  -- With the server up and an empty queue, a round does nothing.
  pub consume-empty :
      (d : Dataset)
      → d.values pending_key ≡ absent
      → Takes redis (consume redis codec server) d (ok tt) d
  unfolding consume deliver
  consume-empty d h = Takes-bind _ (Takes-attempt (get_item-empty d h)) (Takes-pure tt d)

  -- The rest of a round, from the end of the notification.
  deliver-Takes :
      (is_new : Bool) (id : Text) (score : ℤ) (r : Result (Unit {0})) (o : Attempt (Unit {0}))
      (d d' : Dataset)
      → Takes redis
          (notify redis codec server (record { new_incident = is_new; incident_id = id }))
          d
          r
          d
      → attempted r ≡ ok o
      → Takes redis (after_notify redis codec server (payload_of is_new id) score o) d (ok tt) d'
      → Takes redis (deliver redis codec server (done (payload_of is_new id, score))) d (ok tt) d'
  unfolding deliver
  deliver-Takes is_new id score r o d d' notified e after =
      Takes-bind _
        (subst₂ (λ n q. Takes redis (attempt (notify redis codec server n)) d q d)
          (sym (read_payload-payload_of is_new id)) e (Takes-attempt notified))
        after

module _ {redis : Redis} (codec : EventCodec) (server : Server redis.World) (is_new : Bool)
    (inc : Incident.Incident) (score : ℤ) (rest : List Scored) (d : Dataset) where
  -- With the server up, a first item of the queue that is the notification of an incident that is
  -- not stored any more leaves the queue, and nothing else changes.
  pub consume-gone :
      d.values pending_key
        ≡ scores (record { member = payload_of is_new (to_string inc); score = score } ∷ rest)
      → d.values (to_string inc) ≡ absent
      → Takes redis (consume redis codec server) d (ok tt) (put_scores pending_key rest d)
  unfolding consume after_notify
  consume-gone queued gone = Takes-bind _ (Takes-attempt (get_item-least d _ rest queued)) (
      deliver-Takes codec server is_new (to_string inc) score _ _ _ _
        (notify-missing codec server is_new (to_string inc) _
          (put_scores-other pending_key rest d (to_string inc) (pending-ne-id inc) ∙ gone))
        refl (rw (missing_details-text (to_string inc)) (Takes-pure tt _)))

  module _ (older : List Scored) (a : Scored) (latest : PodEvent) (pods : List Text)
      (wf : IsWellFormed inc)
      (queued : d.values pending_key
        ≡ scores (record { member = payload_of is_new (to_string inc); score = score } ∷ rest))
      (stored : d.values (to_string inc) ≡ scores (older ++ a ∷ []))
      (decoded : codec.unmarshal a.member ≡ ok latest)
      (affected : as_members (d.values (pods_key (to_string inc))) ≡ some pods) where
    pub found-Takes :
        Takes redis
          (get_incident_details redis codec (to_string inc))
          (put_scores pending_key rest d)
          (ok (report_of inc latest pods))
          (put_scores pending_key rest d)
    found-Takes =
        get_details-Takes codec inc older a latest pods _ wf
          (put_scores-other pending_key rest d (to_string inc) (pending-ne-id inc) ∙ stored) decoded
          (ap as_members (
              put_scores-other pending_key rest d (pods_key (to_string inc))
                (pending-ne-pods (to_string inc)))
            ∙ affected)

    -- With the server up, let the first item of the queue be the notification of a well-formed
    -- incident that is stored, with a last event that can be decoded. If the request for that kind
    -- of notification, with the report of the incident as its body, is answered, by whatever
    -- status, the round ends and the item has left the queue.
    pub consume-sent :
        (response : HttpClient.Response)
        → Answers redis server is_new
            (report_of inc latest pods)
            (reply response)
            (put_scores pending_key rest d)
        → Takes redis (consume redis codec server) d (ok tt) (put_scores pending_key rest d)
    unfolding consume after_notify
    consume-sent response h = Takes-bind _ (Takes-attempt (get_item-least d _ rest queued)) (
        deliver-Takes codec server is_new (to_string inc) score _ _ _ _
          (notify-Takes codec server is_new (to_string inc) _ (reply response) _ found-Takes h) refl
          (Takes-pure tt _))

    -- With the server up, let the first item of the queue be the notification of a well-formed
    -- incident that is stored, with a last event that can be decoded, and let the porter server
    -- not be reached. The round ends, and the item is back at the front of the queue with its
    -- score, if it was the least item there and the text of the failure does not speak of a
    -- non-existent incident.
    pub consume-failed :
        (e : Error)
        → contains (error_text e) (codes "non-existent incident") ≡ false
        → Answers redis server is_new
            (report_of inc latest pods)
            (failed e)
            (put_scores pending_key rest d)
        → IsLeast (record { member = payload_of is_new (to_string inc); score = score }) rest
        → Takes redis (consume redis codec server) d (ok tt) (
            put pending_key
              (scores (record { member = payload_of is_new (to_string inc); score = score } ∷ rest))
              (put_scores pending_key rest d))
    unfolding consume after_notify
    consume-failed e other h least = Takes-bind _ (Takes-attempt (get_item-least d _ rest queued)) (
        deliver-Takes codec server is_new (to_string inc) score _ _ _ _
          (notify-Takes codec server is_new (to_string inc) _ (failed e) _ found-Takes h) refl
          (rw other (
            Takes-bind _
              (Takes-attempt (
                requeue-Takes (record { member = payload_of is_new (to_string inc); score = score })
                  rest d least))
              (Takes-pure tt _))))
