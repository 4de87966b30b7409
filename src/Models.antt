-- ===== src/Models.antt =====
-- The data of `pkg/models`: what is stored of a pod event, and what is sent of an incident.
use porter_agent.Base.{ℤ, List, ◌≢◌}
use porter_agent.Text.{Text}
use porter_agent.Result.{Result, panic}

pub record ContainerEvent : Type 0 where
  pub name : Text
  pub reason : Text
  pub message : Text
  pub log_id : Text
  pub exit_code : ℤ

-- The map of container events is the list of its entries, with one entry for each key.
pub record PodEvent : Type 0 where
  pub event_id : Text
  pub chart_name : Text
  pub pod_name : Text
  pub namespace : Text
  pub cluster : Text
  pub owner_name : Text
  pub owner_type : Text
  pub timestamp : ℤ
  pub phase : Text
  pub status : Text
  pub reason : Text
  pub message : Text
  pub container_events : List (Text × ContainerEvent)

pub record Incident : Type 0 where
  pub id : Text
  pub release_name : Text
  pub chart_name : Text
  pub created_at : ℤ
  pub updated_at : ℤ
  pub latest_state : Text
  pub latest_reason : Text
  pub latest_message : Text

-- json.Marshal and json.Unmarshal at `PodEvent`. What a theorem needs of them it states at its event.
pub record EventCodec : Type 0 where
  pub marshal : PodEvent → Result Text
  pub unmarshal : Text → Result PodEvent

-- The codec gives a value or an error.
pub record NeverPanics (codec : EventCodec) : Type 0 where
  pub marshal : (event : PodEvent) → codec.marshal event ≢ panic
  pub unmarshal : (t : Text) → codec.unmarshal t ≢ panic
