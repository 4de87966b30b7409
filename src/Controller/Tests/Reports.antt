-- ===== src/Controller/Tests/Reports.antt =====
-- Reports of a pod on concrete data.
use porter_agent.Client.Events.Storing.{announced}
use porter_agent.Controller.Report.Twice.{report_pod-twice}
use mathlib.Core.List.Perm
use porter_agent.Controller.Tests.{bare, web_1, owned_by, readings}
use porter_agent.Redis.Action.{◌>>=◌, pure}
use porter_agent.Base.{◌≡◌, ◌≢◌, List, [], ◌∷◌, none, pos, refl, ◌+ℤ◌}
use porter_agent.Client.Samples.{web, web-IsWellFormed, by_id, crash_event, scored}
use porter_agent.Redis.Memory.{memory, empty_data}
use porter_agent.Filter.{FilteredMessageResult}
use porter_agent.Text.{Text, codes}
use porter_agent.Controller.Rollout.{can_ignore_multipod_deployment}
use porter_agent.Kube.{Cluster}
use porter_agent.Models.{ContainerEvent, PodEvent, EventCodec}
use porter_agent.Client.Events.{with_id}
use porter_agent.Result.{err, fail, ok}
use porter_agent.Controller.Event.{event_of}
use porter_agent.Incident.{to_string}
use porter_agent.Redis.Takes.{Takes}
use porter_agent.Redis.Keyspace.{Dataset, absent, put, text, scores}
use porter_agent.Controller.Report.{report_pod}
use porter_agent.Controller.Outcome.{Outcome, finished, retry}
use porter_agent.Client.Keys.{pending_key, active_key}
use porter_agent.Controller.Report.First.{report_pod_retried, report_pod-opened}
use porter_agent.Client.Active.Lifecycle.{opened}

abbrev report : FilteredMessageResult
report = record {
  pod_summary = codes "exit";
  pod_details = codes "code 1";
  container_statuses =
      record { container_name = codes "web"; summary = codes "exit"; details = codes "code 1" }
      ∷ [];
}

abbrev in_order : List (Text × ContainerEvent) → List (Text × ContainerEvent)
in_order l = l

abbrev json : Text
json = (with_id (to_string web) (pos 1650000003) crash_event).event_id

report_pod-opened_example :
    Takes memory
      (report_pod memory by_id bare in_order readings
        (codes "default")
        (owned_by (codes "Job"))
        web_1
        report)
      empty_data
      (ok finished)
      (announced
        (pos 1650000003)
        (pos 1650000004)
        web
        json
        (codes "web-1")
        []
        []
        (opened (codes "web") (codes "default") (to_string web) empty_data))
unfolding can_ignore_multipod_deployment ◌+ℤ◌ event_of
report_pod-opened_example =
    report_pod-opened by_id in_order (codes "default") (owned_by (codes "Job")) web_1 report bare
      readings json empty_data [] [] refl refl web-IsWellFormed refl refl refl refl (refl, tt) refl

abbrev no_logs : Cluster memory.World
no_logs = record bare { stream_logs = λ _ _ _ _. err (fail (codes "timeout")) }

abbrev exited : ContainerEvent
exited = record {
  name = codes "web";
  reason = codes "exit";
  message = codes "code 1";
  log_id = [];
  exit_code = pos 0;
}

report_pod_retried_example :
    (d' : Dataset) × Takes memory {A = Outcome × Outcome}
      (do
        first ←
            report_pod memory by_id no_logs in_order readings
              (codes "default")
              (owned_by (codes "Job"))
              web_1
              report
        second ←
            report_pod memory by_id bare in_order readings
              (codes "default")
              (owned_by (codes "Job"))
              web_1
              report
        pure (first, second))
      empty_data
      (ok (retry (fail (codes "timeout")), finished))
      d'
    × (d'.values (to_string web) ≢ absent)
    × (d'.values pending_key ≡ absent)
    × (d'.deadlines (to_string web) ≡ none)
unfolding can_ignore_multipod_deployment event_of
report_pod_retried_example =
    report_pod_retried by_id in_order (codes "default") (owned_by (codes "Job")) web_1 report
      no_logs bare readings readings (codes "web") exited [] (fail (codes "timeout")) json
      empty_data [] refl refl refl refl refl refl (refl, tt) refl

-- The codec that reads every text as the event of the first report.
abbrev first_web : PodEvent
first_web =
    with_id (to_string web) (pos 1650000003)
      (event_of readings.observed (owned_by (codes "Job")) web_1 report)

abbrev reads_first : EventCodec
reads_first = record { marshal = λ event. ok event.event_id; unmarshal = λ t. ok first_web }

report_pod-twice_example :
    Takes memory {A = Outcome × Outcome}
      (do
        first ←
            report_pod memory reads_first bare in_order readings
              (codes "default")
              (owned_by (codes "Job"))
              web_1
              report
        second ←
            report_pod memory reads_first no_logs in_order readings
              (codes "default")
              (owned_by (codes "Job"))
              web_1
              report
        pure (first, second))
      empty_data
      (ok (finished, finished))
      (announced
        (pos 1650000003)
        (pos 1650000004)
        web
        json
        (codes "web-1")
        []
        []
        (opened (codes "web") (codes "default") (to_string web) empty_data))
unfolding can_ignore_multipod_deployment ◌+ℤ◌ event_of
report_pod-twice_example =
    report_pod-twice reads_first in_order (codes "default") (owned_by (codes "Job")) web_1 report
      bare no_logs readings readings in_order json empty_data [] [] refl refl web-IsWellFormed refl
      refl refl refl (refl, tt) refl refl (Perm.refl _)

-- The incident of the release is active and holds the event of the first report.
abbrev has_first : Dataset
has_first =
    put (active_key (codes "web") (codes "default")) (text (to_string web))
      (put (to_string web) (scores (scored json (pos 1650000003) ∷ [])) empty_data)
