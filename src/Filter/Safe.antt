-- ===== src/Filter/Safe.antt =====
-- The filter dereferences nothing that is not there: it reads the memory limit of the first container.
use porter_agent.Base.{List, ◌≢◌, [], Option, Bool, ◌∷◌, some, ◌||◌, refl}
use porter_agent.Kube.{Lists, Pod, Terminated, ContainerStatus}
use porter_agent.Filter.{
  describe_termination, describe_last, describe_terminated, describe_waiting, describe_state,
  collect, filter, first_limit, describe, is_skipped,
}
use porter_agent.Text.{Text, eq_text, codes}
use porter_agent.Result.{panic, if-ne-panic, ok-ne-panic, bind-ne-panic}
use mathlib.Core.List.{reverse}
use mathlib.Core.Option.{none}

first_limit-ne-panic : (limits : List Text) → limits ≢ [] → first_limit limits ≢ panic
unfolding first_limit
first_limit-ne-panic [] h e = h refl
first_limit-ne-panic (l ∷ limits) h e = ok-ne-panic e

module _ (kube : Lists) (pod : Pod) (limited : pod.memory_limits ≢ []) where
  termination-ne-panic :
      (name : Text) (t : Terminated) → describe_termination kube pod name t ≢ panic
  unfolding describe_termination
  termination-ne-panic name t = if-ne-panic (eq_text t.reason (codes "Error")) ok-ne-panic (
      if-ne-panic (eq_text t.reason (codes "OOMKilled"))
        (bind-ne-panic (first_limit-ne-panic pod.memory_limits limited) λ l. ok-ne-panic)
        (if-ne-panic
          (eq_text t.reason (codes "ContainerCannotRun") || eq_text t.reason (codes "StartError"))
          ok-ne-panic ok-ne-panic))

  last-ne-panic : (name : Text) (t : Option Terminated) → describe_last kube pod name t ≢ panic
  unfolding describe_last
  last-ne-panic name none = ok-ne-panic
  last-ne-panic name (some t) = termination-ne-panic name t

  terminated-ne-panic :
      (name : Text) (t : Option Terminated) → describe_terminated kube pod name t ≢ panic
  unfolding describe_terminated
  terminated-ne-panic name none = ok-ne-panic
  terminated-ne-panic name (some t) =
      if-ne-panic (eq_text t.reason []) ok-ne-panic (termination-ne-panic name t)

  waiting-ne-panic :
      (host : Text) (status : ContainerStatus) (reason : Text)
      → describe_waiting kube pod host status reason ≢ panic
  unfolding describe_waiting
  waiting-ne-panic host status reason =
      if-ne-panic (eq_text reason (codes "CrashLoopBackOff"))
        (last-ne-panic status.name status.last_terminated)
        (if-ne-panic
          (eq_text reason (codes "ErrImagePull") || eq_text reason (codes "ImagePullBackOff"))
          ok-ne-panic
          (if-ne-panic (eq_text reason (codes "InvalidImageName")) ok-ne-panic ok-ne-panic))

  state-ne-panic :
      (host : Text) (status : ContainerStatus) (waiting : Option Text)
      → describe_state kube pod host status waiting ≢ panic
  unfolding describe_state
  state-ne-panic host status none = terminated-ne-panic status.name status.terminated
  state-ne-panic host status (some reason) =
      if-ne-panic (eq_text reason []) (terminated-ne-panic status.name status.terminated)
        (waiting-ne-panic host status reason)

  collect-ne-panic :
      (is_job : Bool) (host : Text) (statuses : List ContainerStatus)
      → collect kube pod is_job host statuses ≢ panic
  unfolding collect describe
  collect-ne-panic is_job host [] = ok-ne-panic
  collect-ne-panic is_job host (status ∷ statuses) =
      if-ne-panic (is_skipped kube pod is_job status) (collect-ne-panic is_job host statuses) (
        bind-ne-panic (state-ne-panic host status status.waiting)
          λ report. bind-ne-panic (collect-ne-panic is_job host statuses) λ results. ok-ne-panic)

  -- A pod whose specification has a container is filtered without a panic, whatever the API server
  -- answers.
  pub filter-ne-panic :
      (porter_host : Text) (is_job : Bool) → filter kube porter_host pod is_job ≢ panic
  unfolding filter
  filter-ne-panic porter_host is_job =
      bind-ne-panic (collect-ne-panic is_job porter_host (reverse pod.container_statuses))
        λ results. ok-ne-panic
