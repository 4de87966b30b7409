-- ===== src/System/Tests/Recovers.antt =====
-- A pod that is well again, up to the notification of the porter server, on concrete data.
use porter_agent.Base.{◌≡◌, ◌∷◌, pos, refl, [], false, ◌+ℤ◌}
use porter_agent.Kube.{Pod, Cluster, found}
use porter_agent.Redis.Keyspace.{Dataset, put, text, members, scores, absent}
use porter_agent.Controller.Owner.{get_owner_details}
use porter_agent.Controller.Pods.{get_latest_running_started_at, all_running, has_finalizer}
use porter_agent.Controller.Tests.{web_1, bare, readings}
use porter_agent.Text.{eq_text, codes}
use porter_agent.Redis.Takes.{Takes}
use porter_agent.Client.Keys.{active_key, pods_key, pending_key}
use porter_agent.Controller.Outcome.{is_after}
use porter_agent.Incident.{to_string}
use porter_agent.Redis.Memory.{memory, empty_data}
use porter_agent.Controller.Reconcile.{is_ignored_namespace, reconcile}
use porter_agent.System.Recovers.{IsRecovered, IsLastAffected, reconcile-recovers}
use porter_agent.Text.Decimal.{format_int}
use porter_agent.Client.Samples.{web, by_id, scored, one_event, crash_event, web-IsWellFormed}
use porter_agent.Controller.Reconcile.Reported.{IsWatched}
use porter_agent.Redis.Action.{◌>>◌}
use porter_agent.Consumer.{consume}
use porter_agent.Consumer.Tests.{server_with, accepts, answered}
use porter_agent.Result.{ok}
use porter_agent.Consumer.Posting.{Posts}
use porter_agent.Client.Resolve.Details.{report_of}

-- The pod of the controller's tests, of a stateful set.
abbrev recovered_pod : Pod
recovered_pod = record web_1 {
  owner_references = record { kind = codes "StatefulSet"; name = codes "web" } ∷ [];
}

abbrev with_recovered : Cluster memory.World
with_recovered = record bare { get_pod = λ _ _. found recovered_pod }

-- The incident is stored and active, "web-1" is the only affected pod, and the queue is empty.
abbrev last_affected : Dataset
last_affected = put (active_key (codes "web") (codes "default")) (text (to_string web)) (
    put (pods_key (to_string web)) (members (codes "web-1" ∷ []))
      (put (to_string web) (scores one_event) empty_data))

recovered_pod-IsWatched :
    IsWatched with_recovered (codes "default") (codes "web-1") 1649999999 recovered_pod
unfolding get_owner_details eq_text has_finalizer is_ignored_namespace
recovered_pod-IsWatched = record {
  there = refl;
  clean = refl;
  watched = refl;
  recent = refl;
  released = refl;
  no_job = refl;
}

recovered_pod-IsRecovered : IsRecovered readings recovered_pod (pos 1650000100)
unfolding get_latest_running_started_at all_running is_after ◌+ℤ◌
recovered_pod-IsRecovered = record {
  up = ((refl, refl), ((refl, refl), tt));
  running = refl;
  started = refl;
  long = refl;
}

web-IsLastAffected :
    IsLastAffected web
      (get_owner_details with_recovered (codes "default") recovered_pod).release_name
      (codes "default")
      (codes "web-1")
      []
      (scored (codes "e") (pos 1650000001))
      last_affected
unfolding get_owner_details eq_text to_string format_int
web-IsLastAffected = record { active = refl; stored = refl; affected = refl; no_notice = refl }

reconcile-recovers_example :
    (d' : Dataset) × Takes memory
      (reconcile memory by_id with_recovered
          (codes "porter")
          (λ l. l)
          readings
          (codes "default")
          (codes "web-1")
          (pos 1650000000)
        >> consume memory by_id (server_with accepts))
      last_affected
      (ok tt)
      d'
    × (d'.values pending_key ≡ absent)
    × (d'.values (active_key (codes "web") (codes "default")) ≡ absent)
    × Posts memory
        (server_with accepts)
        false
        (report_of web (record crash_event { event_id = codes "e" }) [])
        (reconcile memory by_id with_recovered
            (codes "porter")
            (λ l. l)
            readings
            (codes "default")
            (codes "web-1")
            (pos 1650000000)
          >> consume memory by_id (server_with accepts))
        last_affected
        d'
reconcile-recovers_example =
    reconcile-recovers by_id (server_with accepts) with_recovered (codes "porter") (λ l. l) readings
      (codes "default") (codes "web-1") 1649999999 recovered_pod web []
      (scored (codes "e") (pos 1650000001)) (record crash_event { event_id = codes "e" })
      (pos 1650000100) (record { status = 200 }) last_affected recovered_pod-IsWatched
      recovered_pod-IsRecovered web-IsWellFormed web-IsLastAffected refl
      (λ d. answered accepts false _ d)
