-- ===== src/Controller/Tests.antt =====
-- The controller on concrete data: the pods of the release `web` in the namespace `default`.
mod Reports
mod Deleted
use porter_agent.Base.{
  ◌≡◌, ◌≢◌, List, [], ◌∷◌, Option, none, some, ℤ, pos, true, false, ◌⊎◌, refl, length, All, ◌+ℤ◌,
}
use porter_agent.Kube.{Lookup, Cluster, Pod, ContainerStatus, found, not_found, failure}
use porter_agent.Client.Samples.{
  web, web-IsWellFormed, crash_event, stored_web, two_pods, queue, by_id, scored,
}
use porter_agent.Text.{codes, Text, eq_text, has_prefix}
use porter_agent.Controller.Outcome.{Readings, finished, is_after}
use porter_agent.Models.{PodEvent, ContainerEvent}
use porter_agent.Controller.Repeats.{lookup, is_repeated, is_copy}
use porter_agent.Controller.Pods.{get_latest_running_started_at, all_running}
use porter_agent.Redis.Takes.{Takes}
use porter_agent.Redis.Keyspace.{Dataset, put, text, remove_member}
use porter_agent.Controller.Owner.{Owner}
use porter_agent.Controller.Repeats.Sound.{is_repeated_again, Agrees, is_repeated_sound}
use porter_agent.Controller.Pods.Starts.{IsStart, IsBound, get_latest_running_started_at-IsStart}
use porter_agent.Redis.Memory.{memory}
use porter_agent.Incident.{to_string}
use porter_agent.Redis.Action.{reply}
use porter_agent.Result.{fail, ok}
use porter_agent.Controller.Deleted.{check_pods}
use porter_agent.Text.Decimal.{format_int}
use porter_agent.Client.Keys.{active_key}
use porter_agent.Controller.Settle.{settle_pod}
use porter_agent.Controller.Deleted.Passes.{check_pods-present, check_pods-gone}
use porter_agent.Client.Resolve.Lifecycle.{after_pod, closed}
use porter_agent.Controller.Settle.Resolves.{settle_pod-job, settle_pod-running}

-- An API server that knows no deployment and no pod, and has empty logs.
abbrev pub bare : Cluster memory.World
bare = record {
  get_pod = λ _ _. not_found;
  list_pods = λ _ _. reply [];
  list_events = λ _ _. reply [];
  update_pod = λ _ w. (reply tt, w);
  replica_set_owners = λ _ _. not_found;
  job_chart = λ _ _. not_found;
  get_deployment = λ _ _. not_found;
  stream_logs = λ _ _ _ _. ok [];
  scaled_value = λ _ _. ok (pos 0);
}

abbrev unreachable : Cluster memory.World
unreachable = record bare { get_pod = λ _ _. failure (fail (codes "timeout")) }

abbrev running_since : ℤ → ContainerStatus
running_since t = record {
  name = codes "web";
  image = codes "nginx";
  waiting = none;
  running = some t;
  terminated = none;
  last_waiting = none;
  last_terminated = none;
}

abbrev pub web_1 : Pod
web_1 = record {
  name = codes "web-1";
  namespace = codes "default";
  instance_label = codes "web";
  creation_timestamp = pos 1650000000;
  finalizers = [];
  owner_references = [];
  memory_limits = [];
  phase = codes "Running";
  container_statuses = running_since (pos 1650000100) ∷ running_since (pos 1650000050) ∷ [];
}

abbrev pub owned_by : Text → Owner
owned_by kind = record {
  release_name = codes "web";
  name = codes "web";
  kind = kind;
  chart_name = codes "web-0.1.0";
}

abbrev pub readings : Readings
readings = record {
  first_run = pos 1650001000;
  checked = record { seconds = pos 1650001000; nanoseconds = 0 };
  resolved = pos 1650001001;
  created = pos 1650000000;
  observed = pos 1650000001;
  logged = λ _. pos 1650000002;
  scored = pos 1650000003;
  announced = pos 1650000004;
}

abbrev exited : Text × ContainerEvent
exited = (
  codes "web",
  record {
    name = codes "web";
    reason = codes "exit";
    message = codes "code 1";
    log_id = [];
    exit_code = pos 0;
  },
)

abbrev exit_event : PodEvent
exit_event = record crash_event { container_events = exited ∷ [] }

exit_event_repeated : is_repeated exit_event exit_event ≡ true
unfolding is_repeated is_copy eq_text has_prefix
exit_event_repeated = refl

get_latest_running_started_at-IsStart_example :
    IsStart (pos 1650000100) web_1.container_statuses
    × IsBound (pos 1650000100) web_1.container_statuses
unfolding get_latest_running_started_at
get_latest_running_started_at-IsStart_example =
    get_latest_running_started_at-IsStart web_1 (pos 1650000100) refl

abbrev active_web : Dataset
active_web = put (active_key (codes "web") (codes "default")) (text (to_string web)) stored_web

settle_pod-job_example :
    Takes memory
      (settle_pod memory bare readings (codes "default") (owned_by (codes "Job")) web_1)
      active_web
      (ok finished)
      (closed (pos 1650001001) web queue active_web)
unfolding eq_text to_string format_int
settle_pod-job_example =
    settle_pod-job bare readings (codes "default") (owned_by (codes "Job")) web_1 web active_web
      queue web-IsWellFormed refl refl (λ e. cc e) refl
