-- ===== src/Client/Tests/Lists.antt =====
-- The logs and the lists of incidents on concrete data.
use mathlib.Core.List.{Perm}
use porter_agent.Client.Samples.{web, web-IsWellFormed, scored}
use porter_agent.Base.{List, arith, pos, ◌∷◌, ◌≡◌, [], false, ◌≢◌, refl, none}
use porter_agent.Redis.Keyspace.{Dataset, Scored, put, scores, absent}
use porter_agent.Text.{eq_text, Text, codes}
use porter_agent.Redis.Takes.{Takes}
use porter_agent.Incident.RoundTrip.{IsWellFormed, new_incident_from_string-to_string}
use porter_agent.Client.Listing.Sorted.{Readable, IsAt, IsNewestFirst, sort_incidents-IsNewestFirst}
use porter_agent.Incident.{new_incident_from_string, to_string, Incident, new_incident}
use porter_agent.Client.Listing.{sort_incidents}
use porter_agent.Redis.Memory.{memory, empty_data}
use porter_agent.Text.Split.{split}
use porter_agent.Client.Keys.{logs_key, log_key}
use porter_agent.Text.Decimal.{format_int}
use porter_agent.Client.Logs.{add_logs, duplicate_logs}
use porter_agent.Redis.Action.{◌>>◌}
use porter_agent.Result.{ok, err, fail, panic}
use porter_agent.Client.Logs.Storing.{logged, duplicate_logs-add_logs, add_logs-deadline}
use porter_agent.Client.Listing.Panics.{sort_incidents-panic}

abbrev logged_once : List Scored
logged_once = scored (codes "log:old") (pos 1650000001) ∷ []

abbrev with_logs : Dataset
with_logs = put (logs_key (to_string web)) (scores logged_once) empty_data

duplicate_logs-add_logs_example :
    Takes memory
      (add_logs memory (pos 1650000005) (to_string web) (codes "a")
        >> duplicate_logs memory (to_string web) (codes "b"))
      with_logs
      (ok false)
      (logged (pos 1650000005) (to_string web) (codes "a") logged_once with_logs)
unfolding eq_text to_string format_int
duplicate_logs-add_logs_example =
    duplicate_logs-add_logs (pos 1650000005) (to_string web) (codes "a") (codes "b") with_logs
      logged_once refl (refl, tt)

add_logs-deadline_example :
    (d' : Dataset) × Takes memory
      (add_logs memory (pos 1650000005) (to_string web) (codes "a"))
      empty_data
      (ok (log_key (to_string web) (pos 1650000005)))
      d'
    × (d'.values (logs_key (to_string web)) ≢ absent)
    × (d'.deadlines (logs_key (to_string web)) ≡ none)
add_logs-deadline_example =
    add_logs-deadline (pos 1650000005) (to_string web) (codes "a") empty_data [] refl

abbrev older_web : Incident
older_web = new_incident (codes "web") (codes "default") (pos 1640000000)

older-IsWellFormed : IsWellFormed older_web
older-IsWellFormed = omega arith

reads-IsAt : (inc : Incident) → IsWellFormed inc → IsAt (to_string inc) inc.timestamp
reads-IsAt inc h = rw (new_incident_from_string-to_string inc h)

abbrev two_incidents : List Text
two_incidents = to_string older_web ∷ to_string web ∷ []

two_incidents-Readable : Readable two_incidents
two_incidents-Readable = (
  (pos 1640000000, reads-IsAt older_web older-IsWellFormed),
  ((pos 1650000000, reads-IsAt web web-IsWellFormed), tt),
)

sort_incidents-IsNewestFirst_example :
    (r : List Text) × (sort_incidents two_incidents ≡ ok r) × IsNewestFirst r × Perm r two_incidents
sort_incidents-IsNewestFirst_example =
    sort_incidents-IsNewestFirst two_incidents two_incidents-Readable

incident_x :
    new_incident_from_string (codes "incident:x")
    ≡ err (fail (codes "invalid incident of the form: incident:x"))
unfolding new_incident_from_string split
incident_x = refl

sort_incidents-panic_example : sort_incidents (codes "incident:x" ∷ to_string web ∷ []) ≡ panic
sort_incidents-panic_example =
    sort_incidents-panic [] (to_string web ∷ []) (codes "incident:x")
      (fail (codes "invalid incident of the form: incident:x")) incident_x (λ e. cc e)
