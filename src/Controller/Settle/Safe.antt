-- ===== src/Controller/Settle/Safe.antt =====
-- What the controller does with a pod that has nothing to report, in any world.
use porter_agent.Redis.{Redis}
use porter_agent.Kube.{Cluster, IsValid, Pod}
use porter_agent.Controller.Outcome.{Readings}
use porter_agent.Controller.Settle.{resolve, settle_pod, error, done, has_run_long}
use porter_agent.Text.{Text, eq_text, codes}
use porter_agent.Redis.Keyspace.{Dataset}
use porter_agent.Controller.Owner.{Owner}
use porter_agent.Redis.Action.{Attempt}
use porter_agent.Redis.Ensures.{
  Ensures, IfDone, Anything, Ensures-bind, Ensures-attempt, Ensures-pure, Ensures-given, Ensures-if,
  Ensures-lift,
}
use porter_agent.Client.Typing.{IsSound, IsIncident}
use porter_agent.Client.Active.Safe.{get_active-Ensures}
use porter_agent.Client.Resolve.Safe.{set_job_resolved-Ensures, set_pod_resolved-Ensures}
use porter_agent.Controller.Rollout.Safe.{can_ignore-ne-panic}

module _ {redis : Redis} {cluster : Cluster redis.World} (valid : IsValid redis.data_of cluster)
    (clock : Readings) where
  resolve-Ensures :
      (namespace : Text) (owner : Owner) (instance : Pod) (id : Attempt Text)
      → Ensures redis IsSound
          (IfDone (λ id d. IsIncident id) id)
          (resolve redis cluster clock namespace owner instance id)
          (λ _. Anything)
  unfolding resolve
  resolve-Ensures namespace owner instance (error e) = Ensures-pure _ λ d p. tt
  resolve-Ensures namespace owner instance (done id) =
      Ensures-given (λ d i p. p)
        λ known.
          Ensures-if (eq_text owner.kind (codes "Job"))
            (λ _.
              Ensures-bind (Ensures-attempt (set_job_resolved-Ensures clock.resolved id known))
                λ _. Ensures-pure _ λ d p. tt)
            λ _.
              Ensures-if (has_run_long redis cluster clock instance)
                (λ _.
                  Ensures-bind
                    (Ensures-attempt
                      (set_pod_resolved-Ensures clock.resolved instance.name id known))
                    λ _. Ensures-pure _ λ d p. tt)
                λ _.
                  Ensures-bind {Q = λ _. Anything}
                    (Ensures-lift _ (can_ignore-ne-panic cluster valid namespace owner.name)
                      λ d a e p. tt)
                    λ ignore.
                      Ensures-if ignore
                        (λ _.
                          Ensures-bind
                            (Ensures-attempt (set_job_resolved-Ensures clock.resolved id known))
                            λ _. Ensures-pure _ λ d p. tt)
                        (λ _. Ensures-pure _ λ d p. tt)

  pub settle_pod-Ensures :
      {P : Dataset → Type 0} (namespace : Text) (owner : Owner) (instance : Pod)
      → Ensures redis IsSound P
          (settle_pod redis cluster clock namespace owner instance)
          (λ _. Anything)
  unfolding settle_pod
  settle_pod-Ensures namespace owner instance =
      Ensures-bind (Ensures-attempt (get_active-Ensures owner.release_name instance.namespace))
        λ id. resolve-Ensures namespace owner instance id
