-- ===== src/Client/Logs/Safe.antt =====
-- The methods on the logs of an incident in any world: they keep what each key holds, and never panic.
use porter_agent.Base.{ℤ, List, ◌∷◌, ◌==◌}
use porter_agent.Redis.{Redis}
use porter_agent.Redis.Keyspace.{Dataset, Scored}
use porter_agent.Client.Logs.{expire_logs, compare_logs, get_logs, add_logs, duplicate_logs}
use porter_agent.Text.{Text}
use porter_agent.Redis.Ensures.{
  Ensures, Anything, Ensures-bind, Ensures-pure, Ensures-or_error, Ensures-lift, Ensures-if,
  Ensures-raise, Ensures-weaken,
}
use porter_agent.Client.Typing.{IsSound}
use porter_agent.Client.Keys.{log_key, logs_key}
use porter_agent.Client.Typing.Calls.{
  get-Ensures, exists-Ensures, set-Ensures, expire_at-Ensures, zadd-Ensures, zrange_rev_two-Ensures,
}
use porter_agent.Incident.RoundTrip.{new_incident_from_string-ne-panic}
use porter_agent.Client.Typing.Identifiers.{log-Fits, AllowsScores-logs}
use mathlib.Core.List.{[]}
use porter_agent.Incident.{expiry}

module _ {redis : Redis} {P : Dataset → Type 0} where
  expire_logs-Ensures : (id : Text) → Ensures redis IsSound P (expire_logs redis id) (λ _. Anything)
  unfolding expire_logs
  expire_logs-Ensures id =
      Ensures-bind {Q = λ inc d. P d}
        (Ensures-or_error _ (Ensures-lift _ (new_incident_from_string-ne-panic id) λ d inc e p. p))
        λ inc. Ensures-or_error _ (expire_at-Ensures redis (logs_key id) (expiry inc))

  compare_logs-Ensures :
      (str_logs : Text) (l : List Scored)
      → Ensures redis IsSound P (compare_logs redis str_logs l) (λ _. Anything)
  unfolding compare_logs
  compare_logs-Ensures str_logs [] = Ensures-pure _ λ d p. tt
  compare_logs-Ensures str_logs (a ∷ rest) =
      Ensures-bind (Ensures-or_error _ (get-Ensures redis a.member)) λ log. Ensures-pure _ λ d p. tt

  pub get_logs-Ensures :
      (log_id : Text) → Ensures redis IsSound P (get_logs redis log_id) (λ _. Anything)
  unfolding get_logs
  get_logs-Ensures log_id =
      Ensures-bind (Ensures-or_error _ (exists-Ensures redis log_id)) λ exists.
        Ensures-if (exists == 0) (λ _. Ensures-raise _)
          λ _.
            Ensures-or_error _ (Ensures-weaken (λ d p. p) (λ t d p. tt) (get-Ensures redis log_id))

module _ {redis : Redis} {P : Dataset → Type 0} where
  pub add_logs-Ensures :
      (score : ℤ) (id str_logs : Text)
      → Ensures redis IsSound P (add_logs redis score id str_logs) (λ _. Anything)
  unfolding add_logs
  add_logs-Ensures score id str_logs =
      let log_id = log_key id score in
      Ensures-bind
        (Ensures-or_error _ (set-Ensures redis log_id str_logs _ (log-Fits id score str_logs)))
        λ _.
          Ensures-bind
            (Ensures-or_error _
              (zadd-Ensures redis (logs_key id) score log_id (AllowsScores-logs id)))
            λ _. Ensures-bind (Ensures-or_error _ (exists-Ensures redis (logs_key id))) λ exists.
              Ensures-if (exists == 0)
                (λ _. Ensures-bind (expire_logs-Ensures id) λ _. Ensures-pure _ λ d p. tt)
                (λ _. Ensures-pure _ λ d p. tt)

  pub duplicate_logs-Ensures :
      (id str_logs : Text)
      → Ensures redis IsSound P (duplicate_logs redis id str_logs) (λ _. Anything)
  unfolding duplicate_logs
  duplicate_logs-Ensures id str_logs =
      Ensures-bind (Ensures-or_error _ (exists-Ensures redis (logs_key id))) λ exists.
        Ensures-if (exists == 0) (λ _. Ensures-pure _ λ d p. tt)
          λ _.
            Ensures-bind (Ensures-or_error _ (zrange_rev_two-Ensures redis (logs_key id)))
              λ previous. compare_logs-Ensures str_logs previous
