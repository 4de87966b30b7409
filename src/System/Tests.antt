-- ===== src/System/Tests.antt =====
-- A history of the agent on concrete data.
mod Delivers
mod Recovers
use porter_agent.Base.{
  ◌≡◌, List, none, ◌∷◌, pos, some, [], subst, arith, refl, false, Bool-cases, inl, inr, ◌++◌,
}
use porter_agent.System.{
  Event, Setup, State, run, pod_changed, pulse, request, elsewhere, five_minutes,
}
use porter_agent.Models.{NeverPanics}
use porter_agent.Consumer.Safe.{StandsApart}
use porter_agent.Kube.{ContainerStatus, Pod, Cluster, IsValid, found, IsPod}
use porter_agent.System.Safe.{IsHealthy, Ages, run-IsHealthy}
use porter_agent.Text.{Text, codes, eq_text}
use porter_agent.Redis.Memory.{memory, empty_data}
use porter_agent.Client.Samples.{by_id, web}
use porter_agent.Controller.Tests.{web_1, bare, readings}
use porter_agent.Client.Typing.{Fits-absent, kind_of}
use porter_agent.Redis.Keyspace.{Dataset, delete}
use porter_agent.Consumer.Tests.{server_with, accepts}
use porter_agent.Redis.Action.{reply, failed, Reply}
use porter_agent.Incident.{to_string}
use porter_agent.Handlers.Routes.{all_incidents}
use porter_agent.System.Startup.{has_running, wait_for_redis, Waits, wait_for_redis-Waits}
use porter_agent.Result.{fail}

abbrev setup : Setup memory
setup = record {
  codec = by_id;
  server = server_with accepts;
  porter_host = codes "porter";
  visit = λ l. l;
}

-- The Redis server is empty, and the agent has not read its time stamp.
abbrev fresh : State memory
unfolding memory
fresh = record { world = empty_data; cached = pos 0; crashed = false }

by_id-NeverPanics : NeverPanics by_id
by_id-NeverPanics = record { marshal = λ event e. cc; unmarshal = λ t e. cc }

apart : StandsApart memory.data_of (server_with accepts).transport
apart = record { marshal = λ body e. cc; check_url = λ url e. cc; send = λ request w. refl }

-- The pod `web-1`, whose container has exited.
abbrev exited : ContainerStatus
exited = record {
  name = codes "web";
  image = codes "nginx";
  waiting = none;
  running = none;
  terminated = some (record { reason = codes "Error"; message = []; exit_code = pos 1 });
  last_waiting = none;
  last_terminated = none;
}

abbrev failing : Pod
failing = record web_1 {
  owner_references = record { kind = codes "Job"; name = codes "web" } ∷ [];
  memory_limits = codes "100Mi" ∷ [];
  container_statuses = exited ∷ [];
}

abbrev cluster : Cluster memory.World
cluster = record bare { get_pod = λ _ _. found failing; list_pods = λ _ _. reply (failing ∷ []) }

cluster-IsValid : IsValid memory.data_of cluster
cluster-IsValid = record {
  pods = λ namespace name pod e.
      let same = found_pod failing pod e in
      subst IsPod same
        (record { label = omega arith; namespace = omega arith; containers = λ q. cc });
  deployments = λ namespace name depl e. absurd (cc e);
  stream_logs = λ namespace pod container previous e. cc;
  scaled_value = λ v total e. cc;
  update_pod = λ pod w. refl;
}
  where
    found_pod : (p q : Pod) → found p ≡ found q → p ≡ q
    found_pod p q e = cc

abbrev history : List (Event memory)
unfolding memory
history =
    pod_changed cluster readings (codes "default") (codes "web-1")
    ∷ pulse
    ∷ request all_incidents
    ∷ elsewhere (λ d. delete (to_string web) d)
    ∷ five_minutes (reply cluster) (pos 1650000009)
    ∷ pulse
    ∷ []

fresh-IsHealthy : IsHealthy fresh
unfolding memory
fresh-IsHealthy = record {
  running = refl;
  sound = record { fits = λ k. Fits-absent (kind_of k) k };
}

deleted-Ages : (k : Text) (d : Dataset) → Ages d (delete k d)
deleted-Ages k d = record {
  kept = λ j. elim (Bool-cases (eq_text k j)) [
    | inl same ↦ inr (rw same)
    | inr other ↦ inl (rw other)
  ];
}

run-IsHealthy_example : IsHealthy (run setup fresh history)
unfolding memory
run-IsHealthy_example =
    run-IsHealthy setup by_id-NeverPanics apart history fresh
      (
        (cluster-IsValid, omega arith),
        (tt, (tt, ((λ w. deleted-Ages (to_string web) w), (tt, (tt, tt))))),
      )
      fresh-IsHealthy

-- The API server does not answer, the pod of Redis is being created, and then it runs.
abbrev starting : List (Reply (List Pod))
starting =
    failed (fail (codes "timeout"))
    ∷ reply (record web_1 { phase = codes "Pending" } ∷ [])
    ∷ reply (web_1 ∷ [])
    ∷ reply []
    ∷ []

starting-ends : wait_for_redis starting ≡ some (reply [] ∷ [])
unfolding wait_for_redis has_running eq_text
starting-ends = refl

wait_for_redis-Waits_example : Waits starting (wait_for_redis starting)
wait_for_redis-Waits_example = wait_for_redis-Waits starting
