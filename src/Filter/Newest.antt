-- ===== src/Filter/Newest.antt =====
-- Which event getContainerEventForReasons finds: the newest one of the first reason that has any.
use mathlib.Core.List.{Memᴰ}
use mathlib.Core.List.Memᴰ.{head, tail}
use porter_agent.Base.{
  ◌≡◌, List, [], ◌∷◌, Option, none, some, All, ◌≤ℤ◌, ltb_ℤ, Bool, Bool-cases, inl, inr, refl, subst,
  All-map, ≤ℤ_trans, ltb_ℤ-true, ltb_ℤ-false, sort_by, insert_by, insert_by-before, insert_by-after,
  insert_by-nil, arith, sym,
}
use porter_agent.Kube.{Event, Lists}
use porter_agent.Text.{Text}
use porter_agent.Filter.{
  sort_events_by_creation_timestamp, get_container_event_for_reasons, event_selector,
  events_or_none, newest,
}

-- The event is one of the list, and none there was created later.
abbrev pub IsNewestOf : Event → List Event → Type 0
IsNewestOf a l = Memᴰ a l × All (λ (b : Event). b.creation_timestamp ≤ℤ a.creation_timestamp) l

abbrev later : Event → Event → Bool
later a b = ltb_ℤ b.creation_timestamp a.creation_timestamp

-- The second list is empty as the first is, or starts with the newest entry of the first.
data Heads (l : List Event) : List Event → Type 0 where
  nothing : l ≡ [] → Heads l []
  newest_first : {a : Event} {rest : List Event} → IsNewestOf a l → Heads l (a ∷ rest)

insert_by-Heads : (a : Event) (l r : List Event) → Heads l r → Heads (a ∷ l) (insert_by later a r)
insert_by-Heads a l [] (nothing e) = subst (Heads (a ∷ l)) (sym (insert_by-nil later a)) (
    newest_first (
      head refl,
      (
        omega arith,
        subst (All (λ (b : Event). b.creation_timestamp ≤ℤ a.creation_timestamp)) (sym e) tt,
      ),
    ))
insert_by-Heads a l (b ∷ r) (newest_first (m, h)) = elim (Bool-cases (later b a)) [
  | inl before ↦
      subst (Heads (a ∷ l)) (sym (insert_by-before later a b r before))
        (newest_first (tail m, (ltb_ℤ-true a.creation_timestamp b.creation_timestamp before, h)))
  | inr after ↦ subst (Heads (a ∷ l)) (sym (insert_by-after later a b r after)) (
      newest_first (
        head refl,
        (
          omega arith,
          All-map {P = λ c. c.creation_timestamp ≤ℤ b.creation_timestamp}
              {Q = λ c. c.creation_timestamp ≤ℤ a.creation_timestamp} l
              (λ c le.
                ≤ℤ_trans c.creation_timestamp b.creation_timestamp a.creation_timestamp le
                  (ltb_ℤ-false a.creation_timestamp b.creation_timestamp after))
              h,
        ),
      ))
]

sort_events-Heads : (l : List Event) → Heads l (sort_events_by_creation_timestamp l)
unfolding sort_events_by_creation_timestamp sort_by
sort_events-Heads [] = nothing refl
sort_events-Heads (a ∷ l) =
    insert_by-Heads a l (sort_events_by_creation_timestamp l) (sort_events-Heads l)

module _ (kube : Lists) (pod_name namespace container_name : Text) where
  abbrev pub events_for : Text → List Event
  events_for reason =
      events_or_none kube
        (kube.list_events namespace (event_selector pod_name reason container_name))

  -- The choice of an event among those for these reasons: nothing, if no reason has any; otherwise the
  -- newest one of the first reason that has any.
  pub data IsChoice : List Text → Option Event → Type 0 where
    exhausted : IsChoice [] none
    skipped :
        (reason : Text) (reasons : List Text) (chosen : Option Event)
        → events_for reason ≡ []
        → IsChoice reasons chosen
        → IsChoice (reason ∷ reasons) chosen
    chosen :
        (reason : Text) (reasons : List Text) (a : Event)
        → IsNewestOf a (events_for reason)
        → IsChoice (reason ∷ reasons) (some a)

  newest-IsChoice :
      (reason : Text) (reasons : List Text) (sorted : List Event) (rest : Option Event)
      → Heads (events_for reason) sorted
      → IsChoice reasons rest
      → IsChoice (reason ∷ reasons) (newest sorted rest)
  newest-IsChoice reason reasons [] rest (nothing e) c = skipped reason reasons rest e c
  newest-IsChoice reason reasons (a ∷ r) rest (newest_first h) c = chosen reason reasons a h

  -- The event that is found for a container and a list of reasons is the newest one of the first
  -- reason for which the API server lists any event, and none is found only if it lists none for any
  -- of them; a list that fails counts as empty.
  pub get_container_event-IsChoice :
      (reasons : List Text)
      → IsChoice reasons
          (get_container_event_for_reasons kube pod_name namespace container_name reasons)
  unfolding get_container_event_for_reasons
  get_container_event-IsChoice [] = exhausted
  get_container_event-IsChoice (reason ∷ reasons) =
      newest-IsChoice reason reasons _ _ (sort_events-Heads (events_for reason))
        (get_container_event-IsChoice reasons)
