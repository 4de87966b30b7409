-- ===== src/Client/Logs.antt =====
-- Container logs of an incident (`pkg/redis/client.go`).
pub mod Storing
pub mod Safe
use porter_agent.Base.{ℤ, pos, Bool, false, List, [], ◌∷◌, ◌++◌, some, ◌==◌, if◌then◌else◌}
use porter_agent.Text.{Text, codes, eq_text}
use porter_agent.Result.{fail, wrap}
use porter_agent.Incident.{new_incident_from_string, expiry, two_weeks}
use porter_agent.Redis.{Redis}
use porter_agent.Redis.Keyspace.{Scored}
use porter_agent.Redis.Action.{Action, pure, raise, call, lift, or_error, ◌>>=◌, ◌>>◌}
use porter_agent.Client.Keys.{log_key, logs_key}

module _ (redis : Redis) where
  open redis use {World}

  -- The step of `AddLogs` for a set of logs that does not exist.
  expire_logs : Text → Action World (Unit {0})
  expire_logs incident_id = do
    incident ← or_error (lift (new_incident_from_string incident_id)) (
        wrap
          (codes
            "error converting incident from string to object while creating new logs set for incident ID: ")
          incident_id (codes ". Error: "))
    or_error (call (redis.expire_at (logs_key incident_id) (expiry incident))) (
        wrap (codes "error setting expiration time for logs set for incident ID: ") incident_id
          (codes ". Error: "))

  unfoldable pub add_logs : ℤ → Text → Text → Action World Text
  unfolding expire_logs
  add_logs score incident_id str_logs = do
    let id = log_key incident_id score
    or_error (call (redis.set id str_logs (some two_weeks))) (λ _. fail (codes "error adding logs"))
    or_error (call (redis.zadd (logs_key incident_id) score id)) (
        wrap (codes "error adding new log with ID: ")
          (id ++ (codes " to logs set of incident ID: " ++ incident_id)) (codes ". Error: "))
    exists ← or_error (call (redis.exists (logs_key incident_id))) (
        wrap (codes "error checking existence of logs set for incident ID: ") incident_id
          (codes ". Error: "))
    if exists == 0 then (do expire_logs incident_id; pure id) else pure id

  compare_logs : Text → List Scored → Action World Bool
  compare_logs str_logs [] = pure false
  compare_logs str_logs (a ∷ rest) = do
    log ← or_error (call (redis.get a.member)) (
        wrap (codes "error getting logs with ID: ") a.member
          (codes " while checking for duplicate logs. Error: "))
    pure (eq_text log str_logs)

  unfoldable pub duplicate_logs : Text → Text → Action World Bool
  unfolding compare_logs
  duplicate_logs incident_id str_logs = do
    exists ← or_error (call (redis.exists (logs_key incident_id))) (
        wrap (codes "error checking for logs set existence for incident ID: ") incident_id
          (codes " while checking for duplicate logs. Error: "))
    if exists == 0 then pure false else do
      previous ← or_error (call (redis.zrange_rev (logs_key incident_id) (pos 0) (pos 1))) (
          wrap (codes "error getting log IDs from logs set for incident ID: ") incident_id
            (codes ". Error: "))
      compare_logs str_logs previous

  unfoldable pub get_logs : Text → Action World Text
  get_logs log_id = do
    exists ←
        or_error (call (redis.exists log_id))
          (λ _. fail (codes "error fetching logs with ID: " ++ log_id))
    if exists == 0
        then raise (fail (codes "no such logs with ID: " ++ log_id))
        else or_error (call (redis.get log_id))
            (wrap (codes "error fetching logs with ID: ") log_id (codes ". Error: "))
