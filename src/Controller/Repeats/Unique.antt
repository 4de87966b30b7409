-- ===== src/Controller/Repeats/Unique.antt =====
-- The container events that are made of a report have one entry for each name.
use porter_agent.Base.{◌≡◌, All, false, inl, inr, List, ◌∷◌, [], Bool-cases, some, subst}
use porter_agent.Controller.Event.{set_event, container_events_of}
use porter_agent.Controller.Repeats.{lookup}
use porter_agent.Text.{Text, eq_text}
use porter_agent.Filter.{FilteredMessageContainerResult}
use porter_agent.Models.{ContainerEvent}
use porter_agent.Controller.Repeats.Sound.{IsMap}
use porter_agent.Text.Equality.{eq_text_refl, eq_text_iff}

abbrev IsUnique : List (Text × ContainerEvent) → Type 0
IsUnique [] = Unit
IsUnique ((key, event) ∷ events) =
    All (λ (entry : Text × ContainerEvent). eq_text key entry.0 ≡ false) events × IsUnique events

All-set_event :
    (key name : Text) (event : ContainerEvent) (events : List (Text × ContainerEvent))
    → eq_text key name ≡ false
    → All (λ (entry : Text × ContainerEvent). eq_text key entry.0 ≡ false) events
    → All
        (λ (entry : Text × ContainerEvent). eq_text key entry.0 ≡ false)
        (set_event name event events)
unfolding set_event
All-set_event key name event [] other h = (other, tt)
All-set_event key name event ((k, old) ∷ events) other (o, h) = elim (Bool-cases (eq_text k name)) [
  | inl same ↦ rw same (other, h)
  | inr differs ↦ rw differs (o, All-set_event key name event events other h)
]

set_event-IsUnique :
    (name : Text) (event : ContainerEvent) (events : List (Text × ContainerEvent))
    → IsUnique events
    → IsUnique (set_event name event events)
unfolding set_event
set_event-IsUnique name event [] h = (tt, tt)
set_event-IsUnique name event ((k, old) ∷ events) (o, h) = elim (Bool-cases (eq_text k name)) [
  | inl same ↦
      let e = (eq_text_iff k name).0 same in
      rw same (
        subst (λ n. All (λ (entry : Text × ContainerEvent). eq_text n entry.0 ≡ false) events) e o,
        h,
      )
  | inr differs ↦
      rw differs
        (All-set_event k name event events differs o, set_event-IsUnique name event events h)
]

container_events_of-IsUnique :
    (results : List FilteredMessageContainerResult) (events : List (Text × ContainerEvent))
    → IsUnique events
    → IsUnique (container_events_of results events)
unfolding container_events_of
container_events_of-IsUnique [] events h = h
container_events_of-IsUnique (r ∷ results) events h =
    container_events_of-IsUnique results _ (set_event-IsUnique r.container_name _ events h)

found_behind :
    (key : Text) (old : ContainerEvent) (events behind : List (Text × ContainerEvent))
    → All (λ (entry : Text × ContainerEvent). eq_text key entry.0 ≡ false) behind
    → All (λ (entry : Text × ContainerEvent). lookup entry.0 events ≡ some entry.1) behind
    → All
        (λ (entry : Text × ContainerEvent). lookup entry.0 ((key, old) ∷ events) ≡ some entry.1)
        behind
unfolding lookup
found_behind key old events [] o h = tt
found_behind key old events ((k, e) ∷ behind) (o, others) (f, found) =
    (rw o f, found_behind key old events behind others found)

IsUnique-IsMap : (events : List (Text × ContainerEvent)) → IsUnique events → IsMap events
unfolding lookup
IsUnique-IsMap [] h = tt
IsUnique-IsMap ((key, event) ∷ events) (o, h) =
    (rw (eq_text_refl key), found_behind key event events events o (IsUnique-IsMap events h))

pub container_events_of-IsMap :
    (results : List FilteredMessageContainerResult) → IsMap (container_events_of results [])
container_events_of-IsMap results =
    IsUnique-IsMap (container_events_of results []) (container_events_of-IsUnique results [] tt)
