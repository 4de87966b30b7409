-- ===== src/Consumer/Startup.antt =====
-- How the consumer is configured (`pkg/consumer/events.go`: init, getStringOrDie, NewEventConsumer).
-- `get_string` is `viper.GetString`: the environment with the defaults.
use porter_agent.Result.{◌>>=◌}
use porter_agent.HttpClient
use porter_agent.Models
use porter_agent.Base.{◌≡◌, ◌++◌, ◌∷◌, append_assoc, refl}
use porter_agent.Text.{Text, colon, codes}
use porter_agent.Consumer.{Server, notify_path}
use porter_agent.HttpClient.{post_request}
use porter_agent.Result.{Result, panic, ok}
use mathlib.Core.List.{[]}

-- The globals that init sets and the consumer uses.
pub record Config : Type 0 where
  pub porter_host : Text
  pub porter_port : Text
  pub porter_token : Text
  pub cluster_id : Text
  pub project_id : Text

abbrev or_die : Text → Result Text
or_die [] = panic
or_die (c ∷ t) = ok (c ∷ t)

unfoldable pub get_string_or_die : (Text → Text) → Text → Result Text
get_string_or_die get_string key = or_die (get_string key)

unfoldable pub init : (Text → Text) → Result Config
unfolding get_string_or_die
init get_string = do
  porter_host ← get_string_or_die get_string (codes "PORTER_HOST")
  porter_token ← get_string_or_die get_string (codes "PORTER_TOKEN")
  cluster_id ← get_string_or_die get_string (codes "CLUSTER_ID")
  project_id ← get_string_or_die get_string (codes "PROJECT_ID")
  ok (record {
    porter_host = porter_host;
    porter_port = get_string (codes "PORTER_PORT");
    porter_token = porter_token;
    cluster_id = cluster_id;
    project_id = project_id;
  })

unfoldable pub new_event_consumer :
    {W : Type 0} → Config → HttpClient.Transport W Models.Incident → Server W
new_event_consumer config transport = record {
  project_id = config.project_id;
  cluster_id = config.cluster_id;
  client =
      HttpClient.new_client (config.porter_host ++ (colon ∷ config.porter_port))
        config.porter_token;
  transport = transport;
}

-- Where a notification goes.
abbrev pub notify_url : Config → Text → Text
notify_url config name =
    config.porter_host
    ++ (colon
        ∷ (config.porter_port
            ++ (codes "/api/projects/"
                ++ (config.project_id
                    ++ (codes "/clusters/"
                        ++ (config.cluster_id ++ (codes "/incidents/" ++ name)))))))

-- The requests of a consumer go to the host and port of its configuration, to the path of the project and
-- the cluster, with the token of the agent.
pub post_request-new_event_consumer :
    {W : Type 0} (config : Config) (transport : HttpClient.Transport W Models.Incident)
    (name json_body : Text)
    → let server = new_event_consumer config transport in
      let request = post_request server.client (notify_path server name) json_body in
      (request.url ≡ notify_url config name)
      × (request.authorization ≡ codes "Bearer " ++ config.porter_token)
unfolding post_request new_event_consumer HttpClient.new_client
post_request-new_event_consumer config transport name json_body =
    (append_assoc config.porter_host (colon ∷ config.porter_port) _, refl)
