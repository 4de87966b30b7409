-- ===== src/Consumer/Posting.antt =====
-- A round of the consumer whose notification is answered ends with the request for it.
use porter_agent.Models
use porter_agent.Incident
use porter_agent.HttpClient
use porter_agent.Base.{sym, ◌≡◌, refl, Bool, true, false, List, ℤ, ◌∷◌, ◌++◌, [], some, subst}
use porter_agent.Redis.{Redis}
use porter_agent.Consumer.{
  Server, notify, do_http_post_notify_new, do_http_post_notify_resolved, notify_path, consume,
  deliver, after_notify,
}
use porter_agent.Models.{EventCodec, PodEvent}
use porter_agent.Redis.Action.{Action, reply, ◌>>◌, pure}
use porter_agent.HttpClient.{post, post_request}
use porter_agent.Redis.Keyspace.{Scored, Dataset, scores, as_members, put_scores}
use porter_agent.Text.{Text}
use porter_agent.Consumer.Delivery.{
  Answers, endpoint, payload_of, known-Takes, read_payload-payload_of, found-Takes,
}
use porter_agent.Result.{ok}
use porter_agent.Redis.Takes.{Takes, Takes-attempt}
use porter_agent.Incident.RoundTrip.{IsWellFormed}
use porter_agent.Redis.Ends.{Ends, Ends-bind, Ends-map, Ends-call, Ends-attempt}
use porter_agent.Client.Resolve.{get_incident_details}
use porter_agent.Client.Keys.{pending_key, pods_key}
use porter_agent.Incident.{to_string}
use porter_agent.Client.Resolve.Details.{report_of}
use porter_agent.Client.Queue.Delivery.{get_item-least}

-- The method ends with the request for the notification of that kind, whose body is the encoding of the
-- report, sent by the transport from the dataset `d'`.
abbrev pub Posts :
    (redis : Redis)
    → Server redis.World
    → Bool
    → Models.Incident
    → Action redis.World (Unit {0})
    → Dataset
    → Dataset
    → Type 0
Posts redis server is_new incident m d d' =
    (json_body : Text) × (server.transport.marshal incident ≡ ok json_body)
    × Ends redis m d tt
        (server.transport.send
          (post_request server.client (notify_path server (endpoint is_new)) json_body))
        d'

-- What comes before the round.
pub Posts-bind :
    {redis : Redis} {A : Type 0} (server : Server redis.World) (is_new : Bool)
    (incident : Models.Incident) {m : Action redis.World A} {n : Action redis.World (Unit {0})}
    {d d₁ d₂ : Dataset} {a : A}
    → Takes redis m d (ok a) d₁
    → Posts redis server is_new incident n d₁ d₂
    → Posts redis server is_new incident (m >> n) d d₂
Posts-bind server is_new incident h (json_body, marshalled, posted) =
    (json_body, marshalled, Ends-bind _ h posted)

module _ {redis : Redis} (codec : EventCodec) (server : Server redis.World) where
  post-Ends :
      (is_new : Bool) (incident : Models.Incident) (response : HttpClient.Response) (d : Dataset)
      → (h : Answers redis server is_new incident (reply response) d)
      → Ends redis
          (post server.transport server.client (notify_path server (endpoint is_new)) incident
            >> pure tt)
          d
          tt
          (server.transport.send
            (post_request server.client (notify_path server (endpoint is_new)) h.json_body))
          d
  unfolding post
  post-Ends is_new incident response d h = Ends-map _ refl (
      Ends-bind _ (known-Takes h.marshalled)
        (Ends-bind _ (known-Takes h.checked) (Ends-call _ response h.sent)))

  notify-Ends :
      (is_new : Bool) (id : Text) (incident : Models.Incident) (response : HttpClient.Response)
      (d : Dataset)
      → Takes redis (get_incident_details redis codec id) d (ok incident) d
      → (h : Answers redis server is_new incident (reply response) d)
      → Ends redis
          (notify redis codec server (record { new_incident = is_new; incident_id = id }))
          d
          tt
          (server.transport.send
            (post_request server.client (notify_path server (endpoint is_new)) h.json_body))
          d
  unfolding notify do_http_post_notify_new do_http_post_notify_resolved
  notify-Ends true id incident response d found h =
      Ends-bind _ found (post-Ends true incident response d h)
  notify-Ends false id incident response d found h =
      Ends-bind _ found (post-Ends false incident response d h)

module _ {redis : Redis} (codec : EventCodec) (server : Server redis.World) (is_new : Bool)
    (inc : Incident.Incident) (score : ℤ) (rest : List Scored) (d : Dataset) (older : List Scored)
    (a : Scored) (latest : PodEvent) (pods : List Text) (wf : IsWellFormed inc)
    (queued : d.values pending_key
      ≡ scores (record { member = payload_of is_new (to_string inc); score = score } ∷ rest))
    (stored : d.values (to_string inc) ≡ scores (older ++ a ∷ []))
    (decoded : codec.unmarshal a.member ≡ ok latest)
    (affected : as_members (d.values (pods_key (to_string inc))) ≡ some pods) where
  -- With the server up, let the first item of the queue be the notification of a well-formed
  -- incident that is stored, with a last event that can be decoded, and let the request for it be
  -- answered. The last thing that the round does is that request, with the report of the incident.
  pub consume-Posts :
      (response : HttpClient.Response)
      → Answers redis server is_new
          (report_of inc latest pods)
          (reply response)
          (put_scores pending_key rest d)
      → Posts redis server is_new
          (report_of inc latest pods)
          (consume redis codec server)
          d
          (put_scores pending_key rest d)
  unfolding consume deliver after_notify
  consume-Posts response h = (
    h.json_body,
    h.marshalled,
    Ends-bind _ (Takes-attempt (get_item-least d _ rest queued)) (
        Ends-map _ refl (
          Ends-attempt (
            subst
              (λ n.
                Ends redis (notify redis codec server n) (put_scores pending_key rest d) tt
                  (server.transport.send
                    (post_request server.client (notify_path server (endpoint is_new)) h.json_body))
                  (put_scores pending_key rest d))
              (sym (read_payload-payload_of is_new (to_string inc)))
              (notify-Ends codec server is_new (to_string inc) _ response _
                (found-Takes codec server is_new inc score rest d older a latest pods wf queued
                  stored decoded affected)
                h)))),
  )
