-- ===== src/Controller/Rollout/Safe.antt =====
-- The question whether a deployment may miss a pod does not panic if the pointers of the deployment are
-- set.
use porter_agent.Base.{◌≡◌, Option, ◌≢◌, ℤ, none, Bool-cases, some, inl, inr, refl, pos}
use porter_agent.Result.{Result, panic, ok-ne-panic, bind-ne-panic, if-ne-panic}
use porter_agent.Kube.{Cluster, IsValid, Deployment, Lookup, IsDeployment, found, not_found}
use porter_agent.Controller.Rollout.{
  get_max_unavailable, can_ignore_multipod_deployment, value_of, or_none, can_ignore, ok, err,
  failure, is_zero,
}
use porter_agent.Text.{Text}

value_of-ne-panic : {A : Type 0} (o : Option A) → o ≢ none → value_of o ≢ panic
value_of-ne-panic none h e = h refl
value_of-ne-panic (some a) h e = ok-ne-panic e

or_none-ne-panic : (r : Result ℤ) → r ≢ panic → or_none r ≢ panic
or_none-ne-panic (ok n) h = ok-ne-panic
or_none-ne-panic (err e) h = ok-ne-panic
or_none-ne-panic panic h = h

module _ {W D : Type 0} {data_of : W → D} (cluster : Cluster W)
    (valid : IsValid data_of cluster) where
  max_unavailable-ne-panic :
      (depl : Deployment) → IsDeployment depl → get_max_unavailable cluster depl ≢ panic
  unfolding get_max_unavailable
  max_unavailable-ne-panic depl h = elim (Bool-cases depl.is_rolling_update) [
    | inl rolling ↦ rw rolling (
        bind-ne-panic (value_of-ne-panic depl.replicas h.replicas) λ desired.
          if-ne-panic (is_zero desired) ok-ne-panic (
            bind-ne-panic (value_of-ne-panic depl.rolling_update (h.strategy rolling))
              λ m. or_none-ne-panic _ (valid.scaled_value _ desired)))
    | inr recreated ↦ rw recreated (ok-ne-panic {a = pos 0})
  ]

  can_ignore-found :
      (depl : Deployment) → IsDeployment depl → can_ignore cluster (found depl) ≢ panic
  can_ignore-found depl h =
      bind-ne-panic (value_of-ne-panic depl.replicas h.replicas)
        λ replicas. bind-ne-panic (max_unavailable-ne-panic depl h) λ unavailable. ok-ne-panic

  by_answer :
      (answer : Lookup Deployment)
      → ((depl : Deployment) → answer ≡ found depl → IsDeployment depl)
      → can_ignore cluster answer ≢ panic
  by_answer not_found h = ok-ne-panic
  by_answer (failure e) h = ok-ne-panic
  by_answer (found depl) h = can_ignore-found depl (h depl refl)

  pub can_ignore-ne-panic :
      (namespace name : Text) → can_ignore_multipod_deployment cluster namespace name ≢ panic
  unfolding can_ignore_multipod_deployment
  can_ignore-ne-panic namespace name =
      by_answer (cluster.get_deployment namespace name) (valid.deployments namespace name)
