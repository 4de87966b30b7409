-- ===== src/Consumer/Safe.antt =====
-- The rounds of the consumer in any world: they keep what each key holds, and never panic.
use porter_agent.Models
use porter_agent.Base.{◌≡◌, ◌≢◌, ℤ, List, ◌∷◌}
use porter_agent.Redis.Keyspace.{Dataset}
use porter_agent.Redis.{Redis}
use porter_agent.HttpClient.{Transport, post, Request, Client}
use porter_agent.Models.{EventCodec, NeverPanics}
use porter_agent.Consumer.{
  Server, notify, after_notify, deliver, consume, start, do_http_post_notify_new,
  do_http_post_notify_resolved, Notice, done, error, read_payload,
}
use porter_agent.Result.{panic}
use porter_agent.Text.{Text}
use porter_agent.Redis.Action.{Attempt}
use porter_agent.Redis.Ensures.{
  Ensures, Anything, Ensures-if, Ensures-bind, Ensures-pure, Ensures-attempt, Ensures-lift,
  Ensures-outside,
}
use porter_agent.Client.Typing.{IsSound}
use porter_agent.Client.Resolve.Safe.{get_incident_details-Ensures}
use porter_agent.Client.Queue.Safe.{requeue-Ensures, get_item-Ensures}
use mathlib.Core.List.{[]}

-- Go's library gives results or errors, and an exchange with the porter server writes nothing to Redis.
pub record StandsApart {W Body : Type 0} (data_of : W → Dataset) (transport : Transport W Body)
    : Type 0 where
  pub marshal : (body : Body) → transport.marshal body ≢ panic
  pub check_url : (url : Text) → transport.check_url url ≢ panic
  pub send : (request : Request) (w : W) → data_of (transport.send request w).1 ≡ data_of w

module _ {redis : Redis} {codec : EventCodec} (server : Server redis.World)
    (returns : NeverPanics codec) (apart : StandsApart redis.data_of server.transport) where
  post-Ensures :
      {P : Dataset → Type 0} (c : Client) (path : Text) (body : Models.Incident)
      → Ensures redis IsSound P (post server.transport c path body) (λ _. Anything)
  unfolding post
  post-Ensures {P} c path body =
      Ensures-bind (Ensures-lift (server.transport.marshal body) (apart.marshal body) λ d a e p. p)
        λ json.
          Ensures-bind {Q = λ a d. P d} (Ensures-lift _ (apart.check_url _) λ d a e p. p)
            λ _. Ensures-outside _ (apart.send _) λ d a p. tt

  notify-Ensures :
      {P : Dataset → Type 0} (notice : Notice)
      → Ensures redis IsSound P (notify redis codec server notice) (λ _. Anything)
  unfolding notify do_http_post_notify_new do_http_post_notify_resolved
  notify-Ensures notice =
      Ensures-if notice.new_incident
        (λ _.
          Ensures-bind (get_incident_details-Ensures returns notice.incident_id)
            λ incident. Ensures-bind (post-Ensures _ _ incident) λ _. Ensures-pure _ λ d p. tt)
        (λ _.
          Ensures-bind (get_incident_details-Ensures returns notice.incident_id)
            λ incident. Ensures-bind (post-Ensures _ _ incident) λ _. Ensures-pure _ λ d p. tt)

  after_notify-Ensures :
      {P : Dataset → Type 0} (item : Text) (score : ℤ) (outcome : Attempt (Unit {0}))
      → Ensures redis IsSound P (after_notify redis codec server item score outcome) (λ _. Anything)
  unfolding after_notify
  after_notify-Ensures item score (done _) = Ensures-pure _ λ d p. tt
  after_notify-Ensures item score (error e) =
      Ensures-if _
        (λ _.
          Ensures-bind (Ensures-attempt (requeue-Ensures item score)) λ _. Ensures-pure _ λ d p. tt)
        (λ _. Ensures-pure _ λ d p. tt)

  deliver-Ensures :
      {P : Dataset → Type 0} (item : Attempt (Text × ℤ))
      → Ensures redis IsSound P (deliver redis codec server item) (λ _. Anything)
  unfolding deliver
  deliver-Ensures (error e) = Ensures-pure _ λ d p. tt
  deliver-Ensures (done (item, score)) =
      Ensures-bind (Ensures-attempt (notify-Ensures (read_payload item)))
        λ outcome. after_notify-Ensures item score outcome

  pub consume-Ensures :
      {P : Dataset → Type 0} → Ensures redis IsSound P (consume redis codec server) (λ _. Anything)
  unfolding consume
  consume-Ensures = Ensures-bind (Ensures-attempt get_item-Ensures) λ item. deliver-Ensures item

  pub start-Ensures :
      {P : Dataset → Type 0} (pulses : List (Unit {0}))
      → Ensures redis IsSound P (start redis codec server pulses) (λ _. Anything)
  unfolding start
  start-Ensures [] = Ensures-pure _ λ d p. tt
  start-Ensures (pulse ∷ pulses) = Ensures-bind consume-Ensures λ _. start-Ensures pulses
