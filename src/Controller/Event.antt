-- ===== src/Controller/Event.antt =====
-- The event that the controller makes of a report (`controllers/pod_controller.go`, Reconcile).
use porter_agent.Base.{List, [], ◌∷◌, if◌then◌else◌, ℤ, pos}
use porter_agent.Text.{Text, eq_text}
use porter_agent.Filter.{FilteredMessageContainerResult, FilteredMessageResult}
use porter_agent.Controller.Owner.{Owner}
use porter_agent.Models.{ContainerEvent, PodEvent}
use porter_agent.Kube.{Pod}

-- containerEvents[name] = event
unfoldable pub set_event :
    Text → ContainerEvent → List (Text × ContainerEvent) → List (Text × ContainerEvent)
set_event name event [] = (name, event) ∷ []
set_event name event ((key, old) ∷ events) =
    let rest = set_event name event events in
    if eq_text key name then (name, event) ∷ events else (key, old) ∷ rest

unfoldable pub container_events_of :
    List FilteredMessageContainerResult
    → List (Text × ContainerEvent)
    → List (Text × ContainerEvent)
unfolding set_event
container_events_of [] events = events
container_events_of (r ∷ results) events = container_events_of results (
    set_event r.container_name
      (record {
        name = r.container_name;
        reason = r.summary;
        message = r.details;
        log_id = [];
        exit_code = pos 0;
      })
      events)

unfoldable pub event_of : ℤ → Owner → Pod → FilteredMessageResult → PodEvent
unfolding container_events_of
event_of observed owner instance filtered = record {
  event_id = [];
  chart_name = owner.chart_name;
  pod_name = instance.name;
  namespace = instance.namespace;
  cluster = [];
  owner_name = owner.release_name;
  owner_type = owner.kind;
  timestamp = observed;
  phase = instance.phase;
  status = [];
  reason = filtered.pod_summary;
  message = filtered.pod_details;
  container_events = container_events_of filtered.container_statuses [];
}
