-- ===== src/HttpClient.antt =====
-- The HTTP client of the agent (`pkg/httpclient/client.go`).
use porter_agent.Base.{ℕ, ◌++◌}
use porter_agent.Text.{Text, codes}
use porter_agent.Result.{Result}
use porter_agent.Redis.Action.{Action, Call, call, lift, ◌>>=◌, ◌>>◌}

pub record Client : Type 0 where
  pub token : Text
  pub host : Text

unfoldable pub new_client : Text → Text → Client
new_client host token = record { token = token; host = host }

pub record Request : Type 0 where
  pub method : Text
  pub url : Text
  pub authorization : Text
  pub content_type : Text
  pub body : Text

pub record Response : Type 0 where
  pub status : ℕ

-- What the client calls of Go's library: `json.Marshal` at the type of the bodies, the check of the
-- URL in `http.NewRequest`, and the exchange with the remote server in `http.Client.Do`.
pub record Transport (W Body : Type 0) : Type 0 where
  pub marshal : Body → Result Text
  pub check_url : Text → Result (Unit {0})
  pub send : Request → Call W Response

-- The request of `Post` for a body that is marshalled.
unfoldable pub post_request : Client → Text → Text → Request
post_request c path json_body = record {
  method = codes "POST";
  url = c.host ++ path;
  authorization = codes "Bearer " ++ c.token;
  content_type = codes "application/json";
  body = json_body;
}

-- Get is called nowhere; `fetch` is `http.Client.Get`.
unfoldable pub get : {W : Type 0} → (Text → Call W Response) → Client → Text → Action W Response
get fetch c url = call (fetch (c.host ++ url))

module _ {W Body : Type 0} (transport : Transport W Body) where
  -- A response of any status is a success.
  unfoldable pub post : Client → Text → Body → Action W Response
  unfolding post_request
  post c path body = do
    json_body ← lift (transport.marshal body)
    lift (transport.check_url (c.host ++ path))
    call (transport.send (post_request c path json_body))
