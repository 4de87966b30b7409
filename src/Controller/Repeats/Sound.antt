-- ===== src/Controller/Repeats/Sound.antt =====
-- An event that is left out says nothing new, and an event that is reported again is left out.
use mathlib.Core.Bool.{Bool-set}
use mathlib.Core.Logic.{∥∥₁_elim}
use mathlib.Core.List.{Perm, Permᴰ}
use mathlib.Core.List.Permᴰ.{nil, cons, swap, trans}
use porter_agent.Base.{
  subst, sym, ap, suc, ◌∙◌, ◌≡◌, List, [], ◌∷◌, Option, none, some, Bool, true, false, inl, inr,
  All, ◌⊎◌, ◌&&◌, ◌||◌, refl, ℤ, pos, negsuc, arith, length, ℕ, ◌==◌,
}
use porter_agent.Text.{Text, codes, has_prefix}
use porter_agent.Models.{ContainerEvent, PodEvent}
use porter_agent.Controller.Repeats.{same_containers, is_repeated, is_same, lookup, agrees, is_copy}
use porter_agent.Text.Equality.{eq_text_iff, eq_text_refl}

and_true : (a b : Bool) → (a && b) ≡ true → (a ≡ true) × (b ≡ true)
and_true true true h = (refl, refl)
and_true true false h = absurd (cc h)
and_true false b h = absurd (cc h)

or_true : (a b : Bool) → (a || b) ≡ true → (a ≡ true) ⊎ (b ≡ true)
or_true true b h = inl refl
or_true false b h = inr h

count_eq : (a b : ℕ) → (a == b) ≡ true → a ≡ b
count_eq a b h = ground arith

is_same_eq : (a b : ℤ) → is_same a b ≡ true → a ≡ b
is_same_eq (pos a) (pos b) h = ground arith
is_same_eq (negsuc a) (negsuc b) h = ground arith
is_same_eq (pos a) (negsuc b) h = absurd (cc h)
is_same_eq (negsuc a) (pos b) h = absurd (cc h)

is_same_refl : (a : ℤ) → is_same a a ≡ true
is_same_refl (pos a) = ground arith
is_same_refl (negsuc a) = ground arith

-- The map holds, for the name of the entry, an event with the same exit code, reason and message.
abbrev pub Agrees : List (Text × ContainerEvent) → Text × ContainerEvent → Type 0
Agrees events entry =
    (new : ContainerEvent) × (lookup entry.0 events ≡ some new)
    × (new.exit_code ≡ entry.1.exit_code)
    × (new.reason ≡ entry.1.reason)
    × (new.message ≡ entry.1.message)

-- Each entry is found under its key: no key has two.
abbrev pub IsMap : List (Text × ContainerEvent) → Type 0
IsMap events = All (λ (entry : Text × ContainerEvent). lookup entry.0 events ≡ some entry.1) events

agrees_sound :
    (events : List (Text × ContainerEvent)) (name : Text) (old : ContainerEvent)
    (o : Option ContainerEvent)
    → lookup name events ≡ o
    → agrees old o ≡ true
    → Agrees events (name, old)
agrees_sound events name old none e h = absurd (cc h)
agrees_sound events name old (some new) e h =
    let (code, texts) = and_true _ _ h in
    let (reason, message) = and_true _ _ texts in
    (new, e, is_same_eq _ _ code, (eq_text_iff _ _).0 reason, (eq_text_iff _ _).0 message)

same_containers_sound :
    (events latest : List (Text × ContainerEvent))
    → same_containers events latest ≡ true
    → All (Agrees events) latest
unfolding same_containers
same_containers_sound events [] h = tt
same_containers_sound events ((name, old) ∷ latest) h =
    let (one, rest) =
      and_true (agrees old (lookup name events)) (same_containers events latest) h in
    (agrees_sound events name old _ refl one, same_containers_sound events latest rest)

agrees_refl : (event : ContainerEvent) → agrees event (some event) ≡ true
agrees_refl event =
    rw (is_same_refl event.exit_code, eq_text_refl event.reason, eq_text_refl event.message)

same_containers_found :
    (events latest : List (Text × ContainerEvent))
    → All (λ (entry : Text × ContainerEvent). lookup entry.0 events ≡ some entry.1) latest
    → same_containers events latest ≡ true
unfolding same_containers
same_containers_found events [] h = refl
same_containers_found events ((name, old) ∷ latest) h =
    rw (h.0, agrees_refl old, same_containers_found events latest h.1)

-- The event and the latest one say that an image could not be pulled; or its message begins with
-- "back-off"; or it has the reason, the message and the number of container events of the latest one,
-- and for each container event of that an event with the same name, exit code, reason and message.
abbrev pub IsRepeat : PodEvent → PodEvent → Type 0
IsRepeat event latest =
    ((event.reason ≡ codes "Error while pulling image from container registry")
      × (latest.reason ≡ event.reason))
    ⊎ ((has_prefix event.message (codes "back-off") ≡ true)
        ⊎ ((latest.reason ≡ event.reason)
            × (latest.message ≡ event.message)
            × (length event.container_events ≡ length latest.container_events)
            × All (Agrees event.container_events) latest.container_events))

pub is_repeated_sound :
    (event latest : PodEvent) → is_repeated event latest ≡ true → IsRepeat event latest
unfolding is_repeated is_copy
is_repeated_sound event latest h = elim (or_true _ _ h) [
  | inl pull ↦
      let (pulling, same) = and_true _ _ pull in
      inl ((eq_text_iff _ _).0 pulling, (eq_text_iff _ _).0 same)
  | inr rest ↦ elim (or_true _ _ rest) [
    | inl back_off ↦ inr (inl back_off)
    | inr copy ↦
        let (texts, containers) = and_true _ _ copy in
        let (reason, message) = and_true _ _ texts in
        let (count, same) = and_true _ _ containers in
        inr (
          inr (
            (eq_text_iff _ _).0 reason,
            (eq_text_iff _ _).0 message,
            count_eq _ _ count,
            same_containers_sound _ _ same,
          ))
  ]
]

agrees_complete :
    (events : List (Text × ContainerEvent)) (entry : Text × ContainerEvent)
    → Agrees events entry
    → agrees entry.1 (lookup entry.0 events) ≡ true
agrees_complete events entry (new, e, code, reason, message) = rw (
  e,
  code,
  reason,
  message,
  is_same_refl entry.1.exit_code,
  eq_text_refl entry.1.reason,
  eq_text_refl entry.1.message,
)

same_containers_complete :
    (events latest : List (Text × ContainerEvent))
    → All (Agrees events) latest
    → same_containers events latest ≡ true
unfolding same_containers
same_containers_complete events [] h = refl
same_containers_complete events (entry ∷ latest) (one, rest) =
    rw (agrees_complete events entry one, same_containers_complete events latest rest)

pub is_repeated_complete :
    (event latest : PodEvent) → IsRepeat event latest → is_repeated event latest ≡ true
unfolding is_repeated is_copy
is_repeated_complete event latest (inl (pulling, same)) =
    rw ((eq_text_iff _ _).1 pulling, (eq_text_iff _ _).1 same)
is_repeated_complete event latest (inr (inl back_off)) = rw back_off (ground arith)
is_repeated_complete event latest (inr (inr (reason, message, count, same))) =
    rw
      (
        reason,
        message,
        eq_text_refl event.reason,
        eq_text_refl event.message,
        same_containers_complete event.container_events latest.container_events same,
      )
      (ground arith)

All-Permᴰ {ℓ κ} : {A : Type ℓ} (P : A → Type κ) {l m : List A} → Permᴰ l m → All P m → All P l
All-Permᴰ P nil h = tt
All-Permᴰ P (cons e p) (a, h) = (subst P (sym e) a, All-Permᴰ P p h)
All-Permᴰ P (swap d e) (a, (b, h)) = (subst P (sym d) b, (subst P (sym e) a, h))
All-Permᴰ P (trans p q) h = All-Permᴰ P p (All-Permᴰ P q h)

length-Permᴰ {ℓ} : {A : Type ℓ} {l m : List A} → Permᴰ l m → length l ≡ length m
length-Permᴰ nil = refl
length-Permᴰ (cons e p) = ap suc (length-Permᴰ p)
length-Permᴰ (swap d e) = refl
length-Permᴰ (trans p q) = length-Permᴰ p ∙ length-Permᴰ q

is_copy-Permᴰ :
    (event latest : PodEvent)
    → IsMap event.container_events
    → Permᴰ latest.container_events event.container_events
    → is_copy event latest ≡ true
unfolding is_copy
is_copy-Permᴰ event latest unique p =
    let found = same_containers_found event.container_events latest.container_events (
      All-Permᴰ
        (λ (entry : Text × ContainerEvent). lookup entry.0 event.container_events ≡ some entry.1) p
        unique) in
    let count = length-Permᴰ p in ground arith

-- An event with the reason, the message and the container events of the latest one, in any order, of
-- which each is found under its name, is left out.
pub is_repeated_again :
    (event latest : PodEvent)
    → latest.reason ≡ event.reason
    → latest.message ≡ event.message
    → Perm latest.container_events event.container_events
    → IsMap event.container_events
    → is_repeated event latest ≡ true
unfolding is_repeated
is_repeated_again event latest reason message order unique =
    let copy =
      ∥∥₁_elim order (Bool-set (is_copy event latest) true) (is_copy-Permᴰ event latest unique) in
    rw (reason, message, copy, eq_text_refl event.reason, eq_text_refl event.message) (ground arith)
