-- ===== src/Filter/Healthy.antt =====
-- Containers that wait for nothing and have not terminated are not reported, whatever became of them
-- before.
use mathlib.Core.List.{reverse, reverse_aux, []}
use porter_agent.Base.{◌≡◌, List, none, All, ◌∷◌, Option, Bool, Bool-cases, some, inl, inr, refl}
use porter_agent.Kube.{ContainerStatus, Lists, Pod}
use porter_agent.Filter.{
  describe_state, collect, filter, describe_terminated, describe, summarise, keep_report, no_report,
  is_skipped,
}
use porter_agent.Text.{Text, eq_text}
use porter_agent.Result.{ok}

abbrev pub IsUp : ContainerStatus → Type 0
IsUp status = (status.waiting ≡ none) × (status.terminated ≡ none)

All-reverse_aux {ℓ κ} :
    {A : Type ℓ} (P : A → Type κ) (l r : List A) → All P l → All P r → All P (reverse_aux l r)
All-reverse_aux P [] r h k = k
All-reverse_aux P (a ∷ l) r (p, h) k = All-reverse_aux P l (a ∷ r) h (p, k)

module _ (kube : Lists) (pod : Pod) where
  state-up :
      (host : Text) (status : ContainerStatus) (waiting : Option Text)
      → waiting ≡ none
      → status.terminated ≡ none
      → describe_state kube pod host status waiting ≡ ok no_report
  unfolding describe_state describe_terminated
  state-up host status none w t = rw t
  state-up host status (some reason) w t = absurd (cc w)

  collect-up :
      (is_job : Bool) (host : Text) (statuses : List ContainerStatus)
      → All IsUp statuses
      → collect kube pod is_job host statuses ≡ ok []
  unfolding collect describe keep_report eq_text
  collect-up is_job host [] h = refl
  collect-up is_job host (status ∷ statuses) ((w, t), h) =
      elim (Bool-cases (is_skipped kube pod is_job status)) [
        | inl skipped ↦ rw skipped (collect-up is_job host statuses h)
        | inr counted ↦
            rw (counted, state-up host status status.waiting w t, collect-up is_job host statuses h)
      ]

  -- A pod all of whose containers are up has no report.
  pub filter-up :
      (porter_host : Text) (is_job : Bool)
      → All IsUp pod.container_statuses
      → filter kube porter_host pod is_job ≡ ok none
  unfolding filter summarise
  filter-up porter_host is_job h = rw (
      collect-up is_job porter_host (reverse pod.container_statuses)
        (All-reverse_aux IsUp pod.container_statuses [] h tt))
