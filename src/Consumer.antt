-- ===== src/Consumer.antt =====
-- The event consumer (`pkg/consumer/events.go`): one round of its loop for each pulse.
pub mod Delivery
pub mod Posting
pub mod Safe
pub mod Rounds
pub mod Startup
pub mod Tests
use porter_agent.Base.{ℤ, Bool, true, false, not, List, [], ◌∷◌, ◌++◌, if◌then◌else◌}
use porter_agent.Text.{Text, codes, has_prefix, trim_prefix, contains}
use porter_agent.Result.{error_text}
use porter_agent.Models
use porter_agent.HttpClient
use porter_agent.Models.{EventCodec}
use porter_agent.Redis.{Redis}
use porter_agent.Redis.Action.{Action, Attempt, done, error, pure, attempt, ◌>>=◌, ◌>>◌}
use porter_agent.Client.Queue.{get_item_from_pending_queue, requeue_item_with_score}
use porter_agent.Client.Resolve.{get_incident_details}

-- The configuration of the consumer: where the porter server is, and how it is reached.
pub record Server (W : Type 0) : Type 0 where
  pub project_id : Text
  pub cluster_id : Text
  pub client : HttpClient.Client
  pub transport : HttpClient.Transport W Models.Incident

-- What the payload of an item asks for.
pub record Notice : Type 0 where
  pub new_incident : Bool
  pub incident_id : Text

unfoldable pub read_payload : Text → Notice
read_payload payload =
    if has_prefix payload (codes "new:")
    then record { new_incident = true; incident_id = trim_prefix payload (codes "new:") }
    else if has_prefix payload (codes "resolved:")
    then record { new_incident = false; incident_id = trim_prefix payload (codes "resolved:") }
    else record { new_incident = false; incident_id = [] }

-- fmt.Sprintf("/api/projects/%s/clusters/%s/incidents/<name>", projectID, clusterID)
abbrev pub notify_path : {W : Type 0} → Server W → Text → Text
notify_path server name =
    codes "/api/projects/"
    ++ (server.project_id
        ++ (codes "/clusters/" ++ (server.cluster_id ++ (codes "/incidents/" ++ name))))

module _ (redis : Redis) (codec : EventCodec) (server : Server redis.World) where
  open redis use {World}

  unfoldable pub do_http_post_notify_new : Text → Action World (Unit {0})
  do_http_post_notify_new incident_id = do
    incident ← get_incident_details redis codec incident_id
    HttpClient.post server.transport server.client (notify_path server (codes "notify_new"))
        incident
    pure tt

  unfoldable pub do_http_post_notify_resolved : Text → Action World (Unit {0})
  do_http_post_notify_resolved incident_id = do
    incident ← get_incident_details redis codec incident_id
    HttpClient.post server.transport server.client (notify_path server (codes "notify_resolved"))
        incident
    pure tt

  notify : Notice → Action World (Unit {0})
  unfolding do_http_post_notify_new do_http_post_notify_resolved
  notify notice =
      if notice.new_incident
      then do_http_post_notify_new notice.incident_id
      else do_http_post_notify_resolved notice.incident_id

  -- The error of the requeuing is logged only.
  after_notify : Text → ℤ → Attempt (Unit {0}) → Action World (Unit {0})
  after_notify value score (done _) = pure tt
  after_notify value score (error e) =
      if not (contains (error_text e) (codes "non-existent incident"))
      then (do attempt (requeue_item_with_score redis value score); pure tt)
      else pure tt

  deliver : Attempt (Text × ℤ) → Action World (Unit {0})
  unfolding notify after_notify
  -- An empty queue and a failing server are both passed over; only the logging differs.
  deliver (error e) = pure tt
  deliver (done (value, score)) = do
    outcome ← attempt (notify (read_payload value))
    after_notify value score outcome

  -- The body of the loop of `Start`.
  unfoldable pub consume : Action World (Unit {0})
  unfolding deliver
  consume = do item ← attempt (get_item_from_pending_queue redis); deliver item

  -- One round for each pulse.
  pub start : List (Unit {0}) → Action World (Unit {0})
  unfolding consume
  start [] = pure tt
  start (pulse ∷ pulses) = do consume; start pulses
