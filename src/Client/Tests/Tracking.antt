-- ===== src/Client/Tests/Tracking.antt =====
-- Reports of the pods of an active incident on concrete data, and what is read as the active incident.
use porter_agent.Base.{List, true, pos, ◌∷◌, [], refl}
use porter_agent.Redis.Keyspace.{Dataset, put, text}
use porter_agent.Client.Tracking.{Tracked, apply_all, Report, recovers, perform_all, fails}
use porter_agent.Text.{eq_text, codes}
use porter_agent.Client.Samples.{
  one_event, two_pods, queue, web, by_id, stored_web, crash_event, web-IsWellFormed,
}
use porter_agent.Incident.{to_string}
use porter_agent.Redis.Memory.{memory}
use porter_agent.Client.Keys.{active_key}
use porter_agent.Text.Decimal.{format_int}
use porter_agent.Redis.Takes.{Takes}
use porter_agent.Result.{ok}
use porter_agent.Client.Tracking.Refines.{Represents, perform_all-apply_all}
use porter_agent.Models.{PodEvent}

abbrev active_web : Dataset
active_web = put (active_key (codes "web") (codes "default")) (text (to_string web)) stored_web

abbrev tracked : Tracked
tracked = record { events = one_event; pods = two_pods; active = true; notices = queue }

-- One pod recovers, the other one fails again and recovers.
abbrev reports : List Report
reports =
    recovers (pos 1650000010) (codes "web-1")
    ∷ fails (pos 1650000011) (pos 1650000012) (record crash_event { pod_name = codes "web-2" })
    ∷ recovers (pos 1650000013) (codes "web-2")
    ∷ []

perform_all-apply_all_example :
    (d' : Dataset) × Takes memory
      (perform_all memory by_id (to_string web) reports)
      active_web
      (ok tt)
      d'
    × Represents web
        (apply_all (λ (event : PodEvent). event.event_id) (to_string web) reports tracked)
        d'
unfolding eq_text to_string format_int
perform_all-apply_all_example =
    perform_all-apply_all by_id (λ (event : PodEvent). event.event_id) (λ event. refl) web
      web-IsWellFormed reports tracked active_web
      (record { present = λ e. cc; stored = refl; affected = refl; active = refl; queued = refl })
