-- ===== src/Controller/Repeats.antt =====
-- Which events the controller leaves out, given the latest event of their incident
-- (`controllers/pod_controller.go`, Reconcile).
pub mod Sound
pub mod Unique
use porter_agent.Text.{Text, eq_text, codes, has_prefix}
use porter_agent.Base.{
  ◌∷◌, [], pos, negsuc, some, none, ℤ, List, Option, Bool, false, true, length, ◌==◌, ◌&&◌, ◌||◌,
  if◌then◌else◌,
}
use porter_agent.Models.{ContainerEvent, PodEvent}

-- containerEvents[name] of a map.
unfoldable pub lookup : Text → List (Text × ContainerEvent) → Option ContainerEvent
lookup name [] = none
lookup name ((key, event) ∷ events) =
    let rest = lookup name events in if eq_text key name then some event else rest

abbrev is_same : ℤ → ℤ → Bool
is_same (pos a) (pos b) = a == b
is_same (negsuc a) (negsuc b) = a == b
is_same _ _ = false

abbrev agrees : ContainerEvent → Option ContainerEvent → Bool
agrees old none = false
agrees old (some new) =
    is_same new.exit_code old.exit_code
    && (eq_text new.reason old.reason && eq_text new.message old.message)

-- The loop over the container events of the latest event.
unfoldable pub same_containers : List (Text × ContainerEvent) → List (Text × ContainerEvent) → Bool
unfolding lookup
same_containers events [] = true
same_containers events ((name, old) ∷ latest) =
    let rest = same_containers events latest in agrees old (lookup name events) && rest

-- `newEvent` is false.
unfoldable pub is_copy : PodEvent → PodEvent → Bool
unfolding same_containers
is_copy event latest =
    (length event.container_events == length latest.container_events)
    && same_containers event.container_events latest.container_events

-- The three conditions under which the event is left out.
unfoldable pub is_repeated : PodEvent → PodEvent → Bool
unfolding is_copy
is_repeated event latest =
    (eq_text event.reason (codes "Error while pulling image from container registry")
      && eq_text latest.reason event.reason)
    || (has_prefix event.message (codes "back-off")
        || ((eq_text latest.reason event.reason && eq_text latest.message event.message)
            && is_copy event latest))
