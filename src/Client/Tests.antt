-- ===== src/Client/Tests.antt =====
-- The methods of the client on concrete data.
mod Lists
mod Tracking
use porter_agent.Client.Queue.Delivery.{get_item-empty, get_item-least, requeue-get_item}
use porter_agent.Redis.Takes.{Takes}
use porter_agent.Incident.{to_string}
use porter_agent.Text.{Text, eq_text, codes}
use porter_agent.Base.{
  ◌+ℤ◌, pos, ℤ, ◌++◌, true, false, ◌∷◌, refl, [], arith, ℕ, Bool, List, some, suc,
}
use porter_agent.Redis.Memory.{memory, empty_data}
use porter_agent.Redis.Keyspace.{
  before, put, scores, put_scores, Dataset, remove_member, Scored, members,
}
use porter_agent.Client.Events.{with_id, add_event_to_incident, get_latest_event_for_incident}
use porter_agent.Client.Queue.{
  get_item_from_pending_queue, requeue_item_with_score, get_agent_creation_timestamp,
}
use porter_agent.Redis.Order.{IsLeast}
use porter_agent.Client.Samples.{
  web, scored, by_id, crash_event, stored_web, one_event, web-IsWellFormed, two_pods, queue,
}
use porter_agent.Redis.Action.{◌>>=◌, ◌>>◌, pure}
use porter_agent.Result.{err, no_pending_item, ok, fail}
use porter_agent.Client.Events.Storing.{
  announced, with_event, add_event-new, add_event-old, add_event-full,
}
use porter_agent.Client.Keys.{pending_key, pods_key}
use porter_agent.Text.Decimal.{format_int}
use porter_agent.Client.Resolve.{
  get_incident_details, set_pod_resolved, set_job_incident_resolved, details, is_incident_resolved,
}
use porter_agent.Client.Resolve.Details.{
  missing_details, get_details-missing, get_details-Takes, report_of,
}
use porter_agent.Client.Resolve.Lifecycle.{
  after_pod, closed, set_pod_resolved-Takes, set_job_incident_resolved-Takes,
}
use porter_agent.Client.Active.{active_incident_exists, create_active_incident, get_active_incident}
use porter_agent.Client.Events.Latest.{get_latest-add_event}
use Prim.Native.Nat.{zero}
use porter_agent.Client.Active.Lifecycle.{set_pod_resolved_last, opened, get_active-create_active}
use porter_agent.Client.Queue.Creation.{stamped, get_agent_creation_timestamp_twice}

queue-IsLeast :
    IsLeast
      (scored (codes "new:" ++ to_string web) (pos 1650000001))
      (scored (codes "resolved:old") (pos 1650000002) ∷ [])
unfolding to_string eq_text before
queue-IsLeast = ((refl, refl), tt)

abbrev crash_json : Text
crash_json = (with_id (to_string web) (pos 1650000005) crash_event).event_id

add_event-new_example :
    Takes memory
      (add_event_to_incident memory by_id
        (pos 1650000005)
        (pos 1650000006)
        (to_string web)
        crash_event
        true)
      empty_data
      (ok tt)
      (announced (pos 1650000005) (pos 1650000006) web crash_json (codes "web-1") [] [] empty_data)
unfolding ◌+ℤ◌
add_event-new_example =
    add_event-new by_id (pos 1650000005) (pos 1650000006) web crash_event crash_json empty_data []
      [] web-IsWellFormed refl refl refl refl refl

add_event-old_example :
    Takes memory
      (add_event_to_incident memory by_id
        (pos 1650000005)
        (pos 1650000006)
        (to_string web)
        crash_event
        false)
      stored_web
      (ok tt)
      (with_event
        (pos 1650000005)
        (to_string web)
        crash_json
        (codes "web-1")
        one_event
        two_pods
        stored_web)
unfolding eq_text to_string format_int
add_event-old_example =
    add_event-old by_id (pos 1650000005) (pos 1650000006) web crash_event crash_json stored_web
      one_event two_pods refl refl refl (omega arith)

-- An incident with 500 events.
abbrev copies : ℕ → List Scored
copies zero = []
copies (suc n) = scored (codes "e") (pos n) ∷ copies n

abbrev full_web : Dataset
full_web = put (to_string web) (scores (copies 500)) empty_data

add_event-full_example :
    Takes memory
      (add_event_to_incident memory by_id
        (pos 1650000005)
        (pos 1650000006)
        (to_string web)
        crash_event
        false)
      full_web
      (err (fail (codes "reached max event count of 500 for incident ID: " ++ to_string web)))
      full_web
unfolding eq_text to_string format_int
add_event-full_example =
    add_event-full by_id (pos 1650000005) (pos 1650000006) (to_string web) crash_event full_web
      (copies 500) refl (omega arith)

get_latest-add_event_example :
    Takes memory
      (add_event_to_incident memory by_id
          (pos 1650000005)
          (pos 1650000006)
          (to_string web)
          crash_event
          false
        >> get_latest_event_for_incident memory by_id (to_string web))
      stored_web
      (ok (some (with_id (to_string web) (pos 1650000005) crash_event)))
      (with_event
        (pos 1650000005)
        (to_string web)
        crash_json
        (codes "web-1")
        one_event
        two_pods
        stored_web)
unfolding eq_text to_string format_int
get_latest-add_event_example =
    get_latest-add_event by_id (pos 1650000005) (pos 1650000006) web crash_event crash_json
      stored_web one_event two_pods refl refl refl refl (omega arith) (refl, tt)

set_pod_resolved-Takes_example :
    Takes memory
      (set_pod_resolved memory (pos 1650000009) (codes "web-2") (to_string web))
      stored_web
      (ok tt)
      (after_pod (pos 1650000009) web queue stored_web (remove_member (codes "web-2") two_pods))
unfolding eq_text to_string format_int
set_pod_resolved-Takes_example =
    set_pod_resolved-Takes (pos 1650000009) (codes "web-2") web stored_web two_pods queue
      web-IsWellFormed (λ e. cc e) refl refl

abbrev one_pod_web : Dataset
one_pod_web = put (pods_key (to_string web)) (members (codes "web-1" ∷ [])) stored_web

set_pod_resolved_last_example :
    Takes memory {A = Bool × Bool}
      (do
        set_pod_resolved memory (pos 1650000009) (codes "web-1") (to_string web)
        exists ← active_incident_exists memory (codes "web") (codes "default")
        resolved ← is_incident_resolved memory (to_string web)
        pure (exists, resolved))
      one_pod_web
      (ok (false, true))
      (closed (pos 1650000009) web queue one_pod_web)
unfolding eq_text to_string format_int remove_member
set_pod_resolved_last_example =
    set_pod_resolved_last (pos 1650000009) (codes "web-1") web one_pod_web (codes "web-1" ∷ [])
      queue web-IsWellFormed (λ e. cc e) refl refl refl

get_details-Takes_example :
    Takes memory
      (get_incident_details memory by_id (to_string web))
      stored_web
      (ok (report_of web (record crash_event { event_id = codes "e" }) two_pods))
      stored_web
unfolding eq_text to_string format_int
get_details-Takes_example =
    get_details-Takes by_id web [] (scored (codes "e") (pos 1650000001))
      (record crash_event { event_id = codes "e" }) two_pods stored_web web-IsWellFormed refl refl
      refl

get_active-create_active_example :
    Takes memory {A = Bool × Text}
      (do
        create_active_incident memory (pos 1650000000) (codes "web") (codes "default")
        exists ← active_incident_exists memory (codes "web") (codes "default")
        id ← get_active_incident memory (codes "web") (codes "default")
        pure (exists, id))
      empty_data
      (ok (true, to_string web))
      (opened (codes "web") (codes "default") (to_string web) empty_data)
get_active-create_active_example =
    get_active-create_active (pos 1650000000) (codes "web") (codes "default") empty_data

get_agent_creation_timestamp_twice_example :
    Takes memory {A = ℤ × ℤ}
      (do
        first ← get_agent_creation_timestamp memory (pos 1650000000) (pos 0)
        second ← get_agent_creation_timestamp memory (pos 1650009999) (pos 0)
        pure (first, second))
      empty_data
      (ok (pos 1650000000, pos 1650000000))
      (stamped (pos 1650000000) empty_data)
get_agent_creation_timestamp_twice_example =
    get_agent_creation_timestamp_twice (pos 1650000000) (pos 1650009999) empty_data (omega arith)
      refl
