-- ===== src/Kube.antt =====
-- What the agent reads of the objects of Kubernetes, and the queries that it sends to the API server.
-- The types of the client library have many more fields; these are the ones that the code reads.
use porter_agent.Base.{ℤ, List, Option, Bool, some, none, ◌≢◌, ◌≡◌, true, []}
use porter_agent.Text.{Text, colon}
use porter_agent.Result.{Error, Result, panic}
use porter_agent.Redis.Action.{Reply, Call, reply, failed}
use porter_agent.Text.Split.{Lacks}

pub record Terminated : Type 0 where
  pub reason : Text
  pub message : Text
  pub exit_code : ℤ

-- The states of a container that are nil are `none`; of a waiting one the reason is read, of a running
-- one the time of its start.
pub record ContainerStatus : Type 0 where
  pub name : Text
  pub image : Text
  pub waiting : Option Text
  pub running : Option ℤ
  pub terminated : Option Terminated
  pub last_waiting : Option Text
  pub last_terminated : Option Terminated

pub record OwnerReference : Type 0 where
  pub kind : Text
  pub name : Text

-- `instance` is the label `app.kubernetes.io/instance`, empty if it is not there; `memory_limits` has
-- the memory limit of each container of the specification, as a text.
pub record Pod : Type 0 where
  pub name : Text
  pub namespace : Text
  pub instance_label : Text
  pub creation_timestamp : ℤ
  pub finalizers : List Text
  pub owner_references : List OwnerReference
  pub memory_limits : List Text
  pub phase : Text
  pub container_statuses : List ContainerStatus

pub record Event : Type 0 where
  pub message : Text
  pub creation_timestamp : ℤ

-- A namespace and a selector give the objects, or `none` for an error.
pub record Lists : Type 0 where
  pub list_events : Text → Text → Option (List Event)
  pub list_pods : Text → Text → Option (List Pod)

-- The answer of the API server to a query for one object.
pub data Lookup (A : Type 0) : Type 0 where
  found : A → Lookup A
  not_found : Lookup A
  failure : Error → Lookup A

-- A number or a percentage, as `intstr.IntOrString`.
pub data IntOrString : Type 0 where
  int : ℤ → IntOrString
  percentage : Text → IntOrString

-- `replicas` is a pointer; `rolling_update` is the pointer of that name, and holds the pointer
-- `MaxUnavailable`; `chart` is the label `helm.sh/chart`, empty if it is not there.
pub record Deployment : Type 0 where
  pub replicas : Option ℤ
  pub is_rolling_update : Bool
  pub rolling_update : Option (Option IntOrString)
  pub ready_replicas : ℤ
  pub chart : Text

-- The API server as the controllers see it, for the duration of one call of theirs: the objects do not
-- change. An update goes to the world `W`. `stream_logs` has the namespace, the pod, the container and
-- whether the logs are those of the previous container. `scaled_value` is
-- `intstr.GetScaledValueFromIntOrPercent`, rounding down.
pub record Cluster (W : Type 0) : Type 0 where
  pub get_pod : Text → Text → Lookup Pod
  pub list_pods : Text → Text → Reply (List Pod)
  pub list_events : Text → Text → Reply (List Event)
  pub update_pod : Pod → Call W (Unit {0})
  pub replica_set_owners : Text → Text → Lookup (List OwnerReference)
  pub job_chart : Text → Text → Lookup Text
  pub get_deployment : Text → Text → Lookup Deployment
  pub stream_logs : Text → Text → Text → Bool → Result Text
  pub scaled_value : IntOrString → ℤ → Result ℤ

abbrev answer_of : {A : Type 0} → Reply A → Option A
answer_of (reply a) = some a
answer_of (failed e) = none

-- The queries of the filter, which looks at no error.
unfoldable pub lists_of : {W : Type 0} → Cluster W → Lists
lists_of cluster = record {
  list_events = λ namespace selector. answer_of (cluster.list_events namespace selector);
  list_pods = λ namespace selector. answer_of (cluster.list_pods namespace selector);
}

-- What the API server guarantees of the objects that it hands out. A label and a namespace hold no
-- colon, a pod has a container, and the pointers of a deployment are set.
pub record IsPod (pod : Pod) : Type 0 where
  pub label : Lacks colon pod.instance_label
  pub namespace : Lacks colon pod.namespace
  pub containers : pod.memory_limits ≢ []

pub record IsDeployment (depl : Deployment) : Type 0 where
  pub replicas : depl.replicas ≢ none
  pub strategy : depl.is_rolling_update ≡ true → depl.rolling_update ≢ none

-- The client library of Kubernetes gives results or errors, and writes nothing to Redis.
pub record IsValid {W D : Type 0} (data_of : W → D) (cluster : Cluster W) : Type 0 where
  pub pods :
      (namespace name : Text) (pod : Pod) → cluster.get_pod namespace name ≡ found pod → IsPod pod
  pub deployments :
      (namespace name : Text) (depl : Deployment)
      → cluster.get_deployment namespace name ≡ found depl
      → IsDeployment depl
  pub stream_logs :
      (namespace pod container : Text) (previous : Bool)
      → cluster.stream_logs namespace pod container previous ≢ panic
  pub scaled_value : (v : IntOrString) (total : ℤ) → cluster.scaled_value v total ≢ panic
  pub update_pod : (pod : Pod) (w : W) → data_of (cluster.update_pod pod w).1 ≡ data_of w
