-- ===== src/System/Tests/Delivers.antt =====
-- A pod that fails, up to the notification of the porter server, on concrete data.
use porter_agent.Incident
use porter_agent.Controller.Tests.{web_1, bare, readings}
use porter_agent.Consumer.Tests.{server_with, accepts, answered}
use porter_agent.Redis.Memory.{memory, empty_data}
use porter_agent.Base.{◌≡◌, none, ◌∷◌, pos, refl, some, [], true, false, ◌+ℤ◌}
use porter_agent.Kube.{ContainerStatus, Pod, Cluster, found, lists_of}
use porter_agent.Filter.{
  FilteredMessageResult, filter, exit_summary, is_skipped, exit_details, describe, summarise,
  describe_termination,
}
use porter_agent.Models.{PodEvent, EventCodec}
use porter_agent.System.Delivers.{
  first_incident, first_event, IsUnknown, owner_of, reconcile-consume,
}
use porter_agent.Controller.Owner.{get_owner_details}
use porter_agent.Controller.Rollout.{can_ignore_multipod_deployment}
use porter_agent.Text.{codes, eq_text}
use porter_agent.Result.{ok}
use porter_agent.Client.Samples.{web, web-IsWellFormed}
use porter_agent.Controller.Event.{event_of}
use porter_agent.Controller.Pods.{has_finalizer}
use porter_agent.Redis.Keyspace.{Dataset, absent, text}
use porter_agent.Controller.Reconcile.{is_ignored_namespace, reconcile}
use porter_agent.Redis.Takes.{Takes}
use porter_agent.Controller.Reconcile.Reported.{IsWatched}
use porter_agent.Redis.Action.{◌>>◌}
use porter_agent.Consumer.{consume}
use porter_agent.Client.Keys.{pending_key, active_key}
use porter_agent.Incident.{to_string}
use porter_agent.Consumer.Posting.{Posts}
use porter_agent.Client.Resolve.Details.{report_of}

abbrev crashed_container : ContainerStatus
crashed_container = record {
  name = codes "web";
  image = codes "nginx";
  waiting = none;
  running = none;
  terminated = some (record { reason = codes "Error"; message = []; exit_code = pos 1 });
  last_waiting = none;
  last_terminated = none;
}

abbrev crashed_pod : Pod
crashed_pod = record web_1 {
  owner_references = record { kind = codes "StatefulSet"; name = codes "web" } ∷ [];
  memory_limits = codes "100Mi" ∷ [];
  container_statuses = crashed_container ∷ [];
}

abbrev with_crashed : Cluster memory.World
with_crashed = record bare { get_pod = λ _ _. found crashed_pod }

abbrev exit_result : FilteredMessageResult
exit_result = record {
  pod_summary = exit_summary (pos 1);
  pod_details = exit_details (pos 1);
  container_statuses =
      record {
        container_name = codes "web";
        summary = exit_summary (pos 1);
        details = exit_details (pos 1);
      }
      ∷ [];
}

abbrev sent_event : PodEvent
sent_event = first_event with_crashed (λ l. l) readings (codes "default") crashed_pod exit_result

-- A codec that reads every text as that event.
abbrev reads_sent : EventCodec
reads_sent = record { marshal = λ event. ok (codes "{}"); unmarshal = λ t. ok sent_event }

abbrev inc : Incident.Incident
inc = first_incident with_crashed readings (codes "default") crashed_pod

inc-web : inc ≡ web
unfolding get_owner_details eq_text
inc-web = refl

crashed_report :
    filter (lists_of with_crashed) (codes "porter") crashed_pod false ≡ ok (some exit_result)
unfolding filter eq_text is_skipped describe summarise describe_termination lists_of
crashed_report = refl

crashed-IsWatched : IsWatched with_crashed (codes "default") (codes "web-1") 1649999999 crashed_pod
unfolding get_owner_details eq_text has_finalizer is_ignored_namespace
crashed-IsWatched = record {
  there = refl;
  clean = refl;
  watched = refl;
  recent = refl;
  released = refl;
  no_job = refl;
}

inc-IsUnknown : IsUnknown inc empty_data
unfolding get_owner_details ◌+ℤ◌
inc-IsUnknown = record {
  none_active = refl;
  no_event = refl;
  no_pod = refl;
  no_notice = refl;
  in_time = refl;
}

reconcile-consume_example :
    (d' : Dataset) × Takes memory
      (reconcile memory reads_sent with_crashed
          (codes "porter")
          (λ l. l)
          readings
          (codes "default")
          (codes "web-1")
          (pos 1650000000)
        >> consume memory reads_sent (server_with accepts))
      empty_data
      (ok tt)
      d'
    × (d'.values pending_key ≡ absent)
    × (d'.values (
          active_key
            (owner_of with_crashed (codes "default") crashed_pod).release_name
            crashed_pod.namespace)
        ≡ text (to_string inc))
    × Posts memory
        (server_with accepts)
        true
        (report_of inc sent_event (codes "web-1" ∷ []))
        (reconcile memory reads_sent with_crashed
            (codes "porter")
            (λ l. l)
            readings
            (codes "default")
            (codes "web-1")
            (pos 1650000000)
          >> consume memory reads_sent (server_with accepts))
        empty_data
        d'
unfolding can_ignore_multipod_deployment event_of get_owner_details eq_text
reconcile-consume_example =
    reconcile-consume reads_sent (server_with accepts) with_crashed (codes "porter") (λ l. l)
      readings (codes "default") (codes "web-1") 1649999999 crashed_pod exit_result (codes "{}")
      (record { status = 200 }) empty_data crashed-IsWatched crashed_report refl web-IsWellFormed
      inc-IsUnknown (refl, tt) refl refl (λ d. answered accepts true _ d)
