-- ===== src/Controller/Pods.antt =====
-- What the controller reads of a pod: its finalizers and the states of its containers.
pub mod Safe
pub mod Starts
use porter_agent.Redis.Action.{◌>>◌, Action, or_error, call, pure}
use porter_agent.Text.{Text, codes, eq_text}
use porter_agent.Base.{
  List, ℤ, Option, Bool, ◌∷◌, negsuc, ℕ, false, if◌then◌else◌, ltb, true, some, ltb_ℤ, ◌||◌, ◌+◌,
  ◌++◌,
}
use porter_agent.Kube.{Cluster, Pod, ContainerStatus, Terminated}
use mathlib.Core.List.{reverse, []}
use mathlib.Core.Option.{none}
use porter_agent.Result.{fail, error_text}

abbrev pub custom_finalizer : Text
custom_finalizer = codes "porter.run/agent-finalizer"

unfoldable pub has_finalizer : List Text → Bool
has_finalizer [] = false
has_finalizer (fin ∷ finalizers) = eq_text fin custom_finalizer || has_finalizer finalizers

unfoldable pub without_finalizer : List Text → List Text
without_finalizer [] = []
without_finalizer (fin ∷ finalizers) =
    let rest = without_finalizer finalizers in
    if eq_text fin custom_finalizer then rest else fin ∷ rest

-- The pod without the finalizer of the agent, which is sent to the API server if it was there.
unfoldable pub delete_finalizer_if_exists : {W : Type 0} → Cluster W → Pod → Action W Pod
unfolding has_finalizer without_finalizer
delete_finalizer_if_exists cluster instance =
    let updated = record instance { finalizers = without_finalizer instance.finalizers } in
    if has_finalizer instance.finalizers
    then (do
      or_error (call (cluster.update_pod updated))
          (λ e. fail (codes "error removing custom finalizer: " ++ error_text e))
      pure updated)
    else pure instance

-- The Unix seconds of Go's zero time, which is the first of January of the year 1.
abbrev pub zero_time : ℤ
zero_time = negsuc 62135596799

-- The loop of getLatestRunningStartedAt with its two variables.
abbrev later_start : Option ℤ → ℤ × ℕ → ℤ × ℕ
later_start none (tm, count) = (tm, count)
later_start (some started_at) (tm, count) =
    if ltb_ℤ tm started_at then (started_at, count + 1) else (tm, count)

pub latest_start : List ContainerStatus → ℤ × ℕ → ℤ × ℕ
latest_start [] state = state
latest_start (status ∷ statuses) state = latest_start statuses (later_start status.running state)

unfoldable pub get_latest_running_started_at : Pod → ℤ × Bool
unfolding latest_start
get_latest_running_started_at pod =
    let (tm, count) = latest_start pod.container_statuses (zero_time, 0) in (tm, ltb 0 count)

unfoldable pub all_running : List ContainerStatus → Bool
all_running [] = true
all_running (status ∷ statuses) =
    let rest = all_running statuses in elim status.running [ none ↦ false | some started_at ↦ rest ]

abbrev was_stopped : Option Text → Option Terminated → Bool
was_stopped none none = false
was_stopped none (some t) = true
was_stopped (some reason) t = true

-- The loop of hasLastTerminatedState, over the containers from the last one on.
pub last_named : Text → List ContainerStatus → Bool
last_named container_name [] = false
last_named container_name (status ∷ statuses) =
    let rest = last_named container_name statuses in
    if eq_text container_name status.name
    then was_stopped status.last_waiting status.last_terminated
    else rest

unfoldable pub has_last_terminated_state : Pod → Text → Bool
unfolding last_named
has_last_terminated_state pod container_name =
    last_named container_name (reverse pod.container_statuses)
