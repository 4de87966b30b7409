-- ===== src/Client/Samples.antt =====
-- Concrete data for trying the methods: an incident of the release `web` in the namespace `default`.
use porter_agent.Base.{ℤ, pos, List, [], ◌∷◌, arith, ◌++◌}
use porter_agent.Text.{Text, codes}
use porter_agent.Result.{ok}
use porter_agent.Incident.{Incident, new_incident, to_string}
use porter_agent.Incident.RoundTrip.{IsWellFormed}
use porter_agent.Models.{PodEvent, EventCodec}
use porter_agent.Redis.Memory.{empty_data}
use porter_agent.Redis.Keyspace.{Dataset, put, members, scores, Scored}
use porter_agent.Client.Keys.{pods_key, pending_key}

abbrev pub web : Incident
web = new_incident (codes "web") (codes "default") (pos 1650000000)

pub web-IsWellFormed : IsWellFormed web
web-IsWellFormed = omega arith

abbrev pub crash_event : PodEvent
crash_event = record {
  event_id = [];
  chart_name = codes "web-0.1.0";
  pod_name = codes "web-1";
  namespace = codes "default";
  cluster = [];
  owner_name = codes "web";
  owner_type = codes "Deployment";
  timestamp = pos 1650000005;
  phase = codes "Running";
  status = [];
  reason = codes "The application exited with exit code 1";
  message = codes "crash";
  container_events = [];
}

-- A codec that writes the identifier of an event, and reads it back into one event.
abbrev pub by_id : EventCodec
by_id = record {
  marshal = λ event. ok event.event_id;
  unmarshal = λ id. ok (record crash_event { event_id = id });
}

abbrev pub scored : Text → ℤ → Scored
scored member score = record { member = member; score = score }

-- The event "e" is stored, two pods are affected, and the start of the incident waits to be sent.
abbrev pub one_event : List Scored
one_event = scored (codes "e") (pos 1650000001) ∷ []

abbrev pub two_pods : List Text
two_pods = codes "web-1" ∷ codes "web-2" ∷ []

abbrev pub queue : List Scored
queue =
    scored (codes "new:" ++ to_string web) (pos 1650000001)
    ∷ scored (codes "resolved:old") (pos 1650000002)
    ∷ []

abbrev pub stored_web : Dataset
stored_web = put pending_key (scores queue) (
    put (pods_key (to_string web)) (members two_pods)
      (put (to_string web) (scores one_event) empty_data))
