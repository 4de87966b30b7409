-- ===== src/Handlers/Tests.antt =====
-- Answers of the handlers on concrete data.
use porter_agent.Models
use porter_agent.Client.Samples.{
  web, web-IsWellFormed, crash_event, stored_web, two_pods, by_id, scored,
}
use porter_agent.Redis.Action.{◌>>=◌}
use porter_agent.Base.{[], pos, refl}
use porter_agent.Redis.Memory.{memory, empty_data}
use porter_agent.Client.Logs.Storing.{logged}
use porter_agent.Models.{PodEvent}
use porter_agent.Redis.Takes.{Takes}
use porter_agent.Text.{eq_text, codes}
use porter_agent.Client.Logs.{add_logs}
use porter_agent.Incident.{to_string}
use porter_agent.Handlers.{
  handle_logs, handle_incident_events_by_id, contents, incident_events, error_body, IncidentEvents,
}
use porter_agent.Text.Decimal.{format_int}
use porter_agent.Result.{ok}
use porter_agent.Handlers.Answers.{handle_logs-answers}
use porter_agent.Client.Resolve.{get_incident_details}
use porter_agent.Handlers.Agreement.{Agree, handle_incident_events-get_incident_details}

abbrev stored_event : PodEvent
stored_event = record crash_event { event_id = codes "e" }

handle_logs-answers_example :
    Takes memory
      (add_logs memory (pos 1650000005) (to_string web) (codes "panic") >>= handle_logs memory)
      empty_data
      (ok (record { status = 200; body = contents (codes "panic") }))
      (logged (pos 1650000005) (to_string web) (codes "panic") [] empty_data)
    × Takes memory
        (handle_logs memory (codes "log:x"))
        empty_data
        (ok (record { status = 404; body = error_body (codes "no such logs") }))
        empty_data
handle_logs-answers_example =
    handle_logs-answers (pos 1650000005) (to_string web) (codes "panic") (codes "log:x") empty_data
      [] refl refl

handle_incident_events-get_incident_details_example :
    (e : IncidentEvents) × (r : Models.Incident) × Takes memory
      (handle_incident_events_by_id memory by_id (to_string web))
      stored_web
      (ok (record { status = 200; body = incident_events e }))
      stored_web
    × Takes memory (get_incident_details memory by_id (to_string web)) stored_web (ok r) stored_web
    × Agree e r
unfolding eq_text to_string format_int
handle_incident_events-get_incident_details_example =
    handle_incident_events-get_incident_details by_id web [] (scored (codes "e") (pos 1650000001))
      stored_event [] two_pods stored_web web-IsWellFormed refl (refl, tt) refl
