-- ===== src/Filter/Tests.antt =====
-- The filter on a pod whose only container has been killed for its memory.
use porter_agent.Kube.{Lists, ContainerStatus, Pod}
use porter_agent.Filter.{
  FilteredMessageResult, filter, is_skipped, describe, summarise, describe_termination,
  get_container_event_for_reasons, Event, event_selector,
}
use porter_agent.Base.{
  All, none, some, pos, ◌∷◌, false, [], ◌≢◌, ◌≡◌, refl, ◌++◌, List, if◌then◌else◌,
}
use porter_agent.Text.{codes, eq_text, Text, has_prefix}
use porter_agent.Filter.Reports.{IsReport, filter_sound}
use porter_agent.Result.{ok}
use porter_agent.Filter.Message.{has_newline, get_filtered_message}
use porter_agent.Filter.Message.Cause.{cause_text, get_filtered_message-cause_text}
use porter_agent.Filter.Newest.{IsChoice, get_container_event-IsChoice}

abbrev no_lists : Lists
no_lists = record { list_events = λ _ _. none; list_pods = λ _ _. none }

abbrev killed : ContainerStatus
killed = record {
  name = codes "web";
  image = codes "nginx";
  waiting = some (codes "CrashLoopBackOff");
  running = none;
  terminated = none;
  last_waiting = none;
  last_terminated = some (record { reason = codes "OOMKilled"; message = []; exit_code = pos 137 });
}

abbrev web_pod : Pod
web_pod = record {
  name = codes "web-1";
  namespace = codes "default";
  instance_label = codes "web";
  creation_timestamp = pos 1650000000;
  finalizers = [];
  owner_references = [];
  memory_limits = codes "256Mi" ∷ [];
  phase = codes "Running";
  container_statuses = killed ∷ [];
}

abbrev killed_report : FilteredMessageResult
killed_report = record {
  pod_summary = codes "The application was killed because it used too much memory";
  pod_details =
      codes
        "The application exceeded its memory limit of 256Mi. Reduce the amount of memory your application is using or increase the memory limit - see the docs here for more information: https://docs.porter.run/managing-applications/application-troubleshooting#memory-usage";
  container_statuses =
      record {
        container_name = codes "web";
        summary = codes "The application was killed because it used too much memory";
        details =
            codes
              "The application exceeded its memory limit of 256Mi. Reduce the amount of memory your application is using or increase the memory limit - see the docs here for more information: https://docs.porter.run/managing-applications/application-troubleshooting#memory-usage";
      }
      ∷ [];
}

filter_killed : filter no_lists (codes "https://dashboard") web_pod false ≡ ok (some killed_report)
unfolding filter eq_text is_skipped describe summarise describe_termination
filter_killed = refl

filter_sound_example :
    All
      (IsReport no_lists web_pod false (codes "https://dashboard") (killed ∷ []))
      killed_report.container_statuses
    × (killed_report.container_statuses ≢ [])
filter_sound_example =
    filter_sound no_lists web_pod false (codes "https://dashboard") killed_report filter_killed

abbrev runtime_error : Text
runtime_error = codes "exec failed: "

get_filtered_message-cause_text_example :
    (get_filtered_message (runtime_error ++ cause_text (codes "no such file"))
      ≡ codes "no such file")
    × (get_filtered_message (codes "killed") ≡ codes "killed")
unfolding has_prefix has_newline
get_filtered_message-cause_text_example =
    get_filtered_message-cause_text runtime_error (codes "no such file") (codes "killed")
      (
        refl,
        (
          refl,
          (
            refl,
            (refl, (refl, (refl, (refl, (refl, (refl, (refl, (refl, (refl, (refl, tt)))))))))),
          ),
        ),
      )
      refl (refl, (refl, (refl, (refl, (refl, (refl, tt))))))

-- Two events say that the container is unhealthy, and none that it is being killed.
abbrev probes : List Event
probes =
    record { message = codes "first probe failed"; creation_timestamp = pos 1650000100 }
    ∷ record { message = codes "last probe failed"; creation_timestamp = pos 1650000200 }
    ∷ []

abbrev unhealthy : Lists
unhealthy = record {
  list_events = λ _ selector.
      if eq_text selector (event_selector (codes "web-1") (codes "Unhealthy") (codes "web"))
      then some probes
      else none;
  list_pods = λ _ _. none;
}

last_probe :
    get_container_event_for_reasons unhealthy
      (codes "web-1")
      (codes "default")
      (codes "web")
      (codes "Killing" ∷ codes "Unhealthy" ∷ [])
    ≡ some (record { message = codes "last probe failed"; creation_timestamp = pos 1650000200 })
unfolding get_container_event_for_reasons eq_text
last_probe = refl

get_container_event-IsChoice_example :
    IsChoice unhealthy
      (codes "web-1")
      (codes "default")
      (codes "web")
      (codes "Killing" ∷ codes "Unhealthy" ∷ [])
      (get_container_event_for_reasons unhealthy
        (codes "web-1")
        (codes "default")
        (codes "web")
        (codes "Killing" ∷ codes "Unhealthy" ∷ []))
get_container_event-IsChoice_example =
    get_container_event-IsChoice unhealthy (codes "web-1") (codes "default") (codes "web")
      (codes "Killing" ∷ codes "Unhealthy" ∷ [])
