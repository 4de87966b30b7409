-- ===== src/Controller/Tests/Deleted.antt =====
-- Passes over the pods of an active incident on concrete data.
use porter_agent.Controller.Tests.{bare, web_1}
use porter_agent.Redis.Memory.{memory}
use porter_agent.Client.Samples.{web, web-IsWellFormed, stored_web, two_pods, queue, one_event}
use porter_agent.Base.{◌≡◌, true, if◌then◌else◌, pos, ◌∷◌, refl, [], some}
use porter_agent.Redis.Keyspace.{Dataset, put, text, as_members, absent}
use porter_agent.Client.Tracking.{Tracked}
use porter_agent.Text.{eq_text, Text, codes}
use porter_agent.Kube.{Cluster, Lookup, Pod, found, not_found}
use porter_agent.Incident.{to_string}
use porter_agent.Redis.Takes.{Takes}
use porter_agent.Client.Keys.{active_key, pods_key}
use porter_agent.Text.Decimal.{format_int}
use porter_agent.Controller.Deleted.{check_pods, check_incidents}
use porter_agent.Client.Tracking.Refines.{Represents}
use porter_agent.Result.{ok}
use porter_agent.Controller.Deleted.Closes.{
  missing_all, check_pods-missing_all, check_incidents-IsOver,
}

abbrev active_web : Dataset
active_web = put (active_key (codes "web") (codes "default")) (text (to_string web)) stored_web

abbrev tracked : Tracked
tracked = record { events = one_event; pods = two_pods; active = true; notices = queue }

active_web-Represents : Represents web tracked active_web
unfolding eq_text to_string format_int
active_web-Represents = record {
  present = λ e. cc;
  stored = refl;
  affected = refl;
  active = refl;
  queued = refl;
}

-- The API server finds the pod `web-1`, and not the pod `web-2`.
abbrev first_only : Text → Lookup Pod
first_only name = if eq_text name (codes "web-1") then found web_1 else not_found

abbrev with_first : Cluster memory.World
with_first = record bare { get_pod = λ _ name. first_only name }

check_pods-missing_all_example :
    (d' : Dataset) × Takes memory
      (check_pods memory with_first (pos 1650001000) (to_string web) two_pods)
      active_web
      (ok tt)
      d'
    × Represents web (missing_all first_only (to_string web) (pos 1650001000) two_pods tracked) d'
check_pods-missing_all_example =
    check_pods-missing_all with_first (pos 1650001000) web web-IsWellFormed two_pods tracked
      active_web active_web-Represents

check_incidents-IsOver_example :
    (d' : Dataset) × Takes memory
      (check_incidents memory bare (pos 1650001000) (to_string web ∷ []))
      active_web
      (ok tt)
      d'
    × (as_members (d'.values (pods_key (to_string web))) ≡ some [])
    × (d'.values (active_key (codes "web") (codes "default")) ≡ absent)
check_incidents-IsOver_example =
    check_incidents-IsOver bare (pos 1650001000) web tracked active_web web-IsWellFormed
      active_web-Represents (λ e. cc) (λ pod h. refl)
