-- ===== src/Controller/Pods/Starts.antt =====
-- The latest start of a running container.
use porter_agent.Base.{
  ◌≡◌, List, [], ◌∷◌, Option, none, some, Bool, true, false, inl, inr, All, ◌⊎◌, ◌≤ℤ◌, refl, ap, ℕ,
  ℤ, ltb_ℤ, ≤ℤ_trans, ◌∙◌, arith, if◌then◌else◌, sym, ◌+◌, ltb_ℤ-true, ltb_ℤ-false, ltb, subst,
}
use mathlib.Core.List.{Mem, mem-cons, mem-cons_self}
use mathlib.Core.Logic.Or
use porter_agent.Kube.{ContainerStatus, Pod}
use porter_agent.Controller.Pods.{
  latest_start, later_start, zero_time, get_latest_running_started_at,
}

-- A running container started at the time or before it.
abbrev StartedBy : ℤ → Option ℤ → Type 0
StartedBy tm none = Unit
StartedBy tm (some started_at) = started_at ≤ℤ tm

abbrev pub IsBound : ℤ → List ContainerStatus → Type 0
IsBound tm = All (λ (status : ContainerStatus). StartedBy tm status.running)

-- The time is the start of a container of the list.
abbrev pub IsStart : ℤ → List ContainerStatus → Type 0
IsStart tm statuses = (status : ContainerStatus) × Mem status statuses × (status.running ≡ some tm)

-- What a step of the loop does to its variables.
record Steps (statuses : List ContainerStatus) (before after : ℤ × ℕ) : Type 0 where
  grows : before.0 ≤ℤ after.0
  bounds : IsBound after.0 statuses
  source : (after ≡ before) ⊎ IsStart after.0 statuses

StartedBy-trans : (s t : ℤ) (o : Option ℤ) → s ≤ℤ t → StartedBy s o → StartedBy t o
StartedBy-trans s t none h k = tt
StartedBy-trans s t (some a) h k = ≤ℤ_trans a s t k h

-- One step.
record Step (o : Option ℤ) (before after : ℤ × ℕ) : Type 0 where
  grows : before.0 ≤ℤ after.0
  bounds : StartedBy after.0 o
  source : (after ≡ before) ⊎ (o ≡ some after.0)

later_start-Step : (o : Option ℤ) (state : ℤ × ℕ) → Step o state (later_start o state)
later_start-Step none (tm, count) = record { grows = omega arith; bounds = tt; source = inl refl }
later_start-Step (some a) (tm, count) = by_order (ltb_ℤ tm a) refl
  where
    by_order :
        (b : Bool)
        → ltb_ℤ tm a ≡ b
        → Step (some a) (tm, count) (if b then (a, count + 1) else (tm, count))
    by_order true e = record { grows = ltb_ℤ-true tm a e; bounds = omega arith; source = inr refl }
    by_order false e = record {
      grows = omega arith;
      bounds = ltb_ℤ-false tm a e;
      source = inl refl;
    }

latest_start-Steps :
    (statuses : List ContainerStatus) (state : ℤ × ℕ)
    → Steps statuses state (latest_start statuses state)
unfolding latest_start
latest_start-Steps [] (tm, count) = record { grows = omega arith; bounds = tt; source = inl refl }
latest_start-Steps (status ∷ statuses) state =
    let one = later_start-Step status.running state in
    let rest = latest_start-Steps statuses (later_start status.running state) in
    record {
      grows =
          ≤ℤ_trans state.0 (later_start status.running state).0
            (latest_start statuses (later_start status.running state)).0 one.grows rest.grows;
      bounds = (
        StartedBy-trans (later_start status.running state).0
            (latest_start statuses (later_start status.running state)).0 status.running rest.grows
            one.bounds,
        rest.bounds,
      );
      source = elim rest.source [
        | inr (s, m, r) ↦ inr (s, mem-cons.1 (Or.inr m), r)
        | inl same ↦ elim one.source [
          | inl again ↦ inl (same ∙ again)
          | inr r ↦ inr (status, mem-cons_self, r ∙ ap (λ p. some p.0) (sym same))
        ]
      ];
    }

found-IsStart :
    (statuses : List ContainerStatus) (tm : ℤ) (state : ℤ × ℕ)
    → Steps statuses (zero_time, 0) state
    → state.0 ≡ tm
    → ltb 0 state.1 ≡ true
    → IsStart tm statuses × IsBound tm statuses
found-IsStart statuses tm state h e valid = elim h.source [
  | inl same ↦ absurd (cc (ap (λ (p : ℤ × ℕ). ltb 0 p.1) same, valid))
  | inr start ↦
      (subst (λ t. IsStart t statuses) e start, subst (λ t. IsBound t statuses) e h.bounds)
]

-- If the latest start of the running containers of a pod is found, it is the start of one of them, and
-- none has started after it.
pub get_latest_running_started_at-IsStart :
    (pod : Pod) (tm : ℤ)
    → get_latest_running_started_at pod ≡ (tm, true)
    → IsStart tm pod.container_statuses × IsBound tm pod.container_statuses
unfolding get_latest_running_started_at
get_latest_running_started_at-IsStart pod tm e =
    found-IsStart pod.container_statuses tm (latest_start pod.container_statuses (zero_time, 0))
      (latest_start-Steps pod.container_statuses (zero_time, 0)) (ap (λ (p : ℤ × Bool). p.0) e)
      (ap (λ (p : ℤ × Bool). p.1) e)
