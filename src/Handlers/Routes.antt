-- ===== src/Handlers/Routes.antt =====
-- The routes of the HTTP server (`pkg/server/routes/routes.go`): the requests that reach a handler, with
-- the parameters of their paths.
use porter_agent.Text.{Text}
use porter_agent.Redis.{Redis}
use porter_agent.Models.{EventCodec, NeverPanics}
use porter_agent.Redis.Action.{Action}
use porter_agent.Redis.Ensures.{Ensures, Anything}
use porter_agent.Client.Typing.{IsSound}
use porter_agent.Redis.Keyspace.{Dataset}
use porter_agent.Handlers.Safe.{
  handle_all-Ensures, handle_events-Ensures, handle_by_release-Ensures, handle_logs-Ensures,
}
use porter_agent.Handlers.{
  Answer, handle_logs, handle_all_incidents, handle_incident_events_by_id,
  handle_incidents_by_release_namespace,
}

pub data Request : Type 0 where
  all_incidents : Request
  incident_events_by_id : (id : Text) → Request
  incidents_by_release_namespace : (release_name namespace : Text) → Request
  logs : (log_id : Text) → Request

-- router.GET, one clause for each route.
unfoldable pub answer : (redis : Redis) → EventCodec → Request → Action redis.World Answer
unfolding handle_all_incidents handle_incident_events_by_id handle_incidents_by_release_namespace
    handle_logs
answer redis codec all_incidents = handle_all_incidents redis codec
answer redis codec (incident_events_by_id id) = handle_incident_events_by_id redis codec id
answer redis codec (incidents_by_release_namespace release_name namespace) =
    handle_incidents_by_release_namespace redis codec release_name namespace
answer redis codec (logs log_id) = handle_logs redis log_id

-- Every request is answered without a panic, in any world.
pub answer-Ensures :
    {redis : Redis} {codec : EventCodec} {P : Dataset → Type 0}
    → NeverPanics codec
    → (request : Request) → Ensures redis IsSound P (answer redis codec request) (λ _. Anything)
unfolding answer
answer-Ensures returns all_incidents = handle_all-Ensures returns
answer-Ensures returns (incident_events_by_id id) = handle_events-Ensures returns id
answer-Ensures returns (incidents_by_release_namespace release_name namespace) =
    handle_by_release-Ensures returns release_name namespace
answer-Ensures returns (logs log_id) = handle_logs-Ensures log_id
