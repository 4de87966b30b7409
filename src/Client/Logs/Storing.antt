-- ===== src/Client/Logs/Storing.antt =====
-- What `AddLogs` stores, and what is found of it.
use porter_agent.Base.{ℤ, ◌≡◌, List, [], ◌∷◌, some, ◌++◌, ◌+ℤ◌, true, ap, ◌≢◌, subst, sym}
use mathlib.Core.List.{reverse, reverse-append}
use porter_agent.Redis.Action.{◌>>◌, ◌>>=◌}
use porter_agent.Redis.{Redis}
use porter_agent.Redis.Commands.{first_two}
use porter_agent.Redis.Takes.{
  Takes, Takes-bind, Takes-call, Takes-or_error, Takes-pure, Takes-raise,
}
use porter_agent.Redis.Order.{AllBelow, add_scored_last}
use porter_agent.Client.Logs.{add_logs, duplicate_logs, get_logs, compare_logs}
use porter_agent.Text.{Text, codes, eq_text, contains}
use porter_agent.Redis.Keyspace.{
  Scored, Dataset, put, as_scores, absent, scores, add_scored, text, set_deadline, scores-ne-absent,
  text-ne-absent, without_member,
}
use porter_agent.Client.Keys.{logs_key, log_key, log-ne-logs, logs-ne-log}
use porter_agent.Result.{err, fail, ok}
use porter_agent.Text.Equality.{eq_text_refl}
use porter_agent.Incident.{two_weeks}
use porter_agent.Text.Search.{contains-append}
use porter_agent.Redis.Laws.{
  set-Replies, exists_present, exists_absent, get_text, zadd-Replies, zrange_rev_two-Replies,
}

-- The text is there for two weeks, and its key is in the set of logs of the incident.
abbrev pub logged : ℤ → Text → Text → List Scored → Dataset → Dataset
logged score id str_logs logs d =
    put (logs_key id) (scores (add_scored (log_key id score) score logs)) (
      set_deadline (log_key id score) (some (d.clock +ℤ two_weeks))
        (put (log_key id score) (text str_logs) d))

latest_first :
    (m : Text) (x : ℤ) (l : List Scored)
    → AllBelow x l
    → first_two (reverse (add_scored m x l))
      ≡ first_two (record { member = m; score = x } ∷ reverse (without_member m l))
latest_first m x l h = rw (
  add_scored_last m x l h,
  reverse-append (without_member m l) (record { member = m; score = x } ∷ []),
)

module _ (score : ℤ) (id str_logs : Text) (logs : List Scored) (d : Dataset) where
  pub logged-logs :
      (logged score id str_logs logs d).values (logs_key id)
      ≡ scores (add_scored (log_key id score) score logs)
  logged-logs = rw (eq_text_refl (logs_key id))

  pub logged-log : (logged score id str_logs logs d).values (log_key id score) ≡ text str_logs
  logged-log = rw (logs-ne-log id id score, eq_text_refl (log_key id score))

  pub logged-deadline :
      (logged score id str_logs logs d).deadlines (logs_key id) ≡ d.deadlines (logs_key id)
  logged-deadline = rw (log-ne-logs id id score)

module _ {redis : Redis} where
  -- With the server up, the logs are stored under the key that is returned.
  pub add_logs-Takes :
      (score : ℤ) (id str_logs : Text) (d : Dataset) (logs : List Scored)
      → as_scores (d.values (logs_key id)) ≡ some logs
      → Takes redis
          (add_logs redis score id str_logs)
          d
          (ok (log_key id score))
          (logged score id str_logs logs d)
  unfolding add_logs
  add_logs-Takes score id str_logs d logs stored =
      Takes-bind _ (Takes-or_error _ (Takes-call _ (set-Replies redis _ _ _ d))) (
        Takes-bind _
          (Takes-or_error _
            (Takes-call _ (zadd-Replies redis _ _ _ _ logs (rw (log-ne-logs id id score) stored))))
          (Takes-bind _
            (Takes-or_error _ (
              Takes-call _ (
                exists_present redis _ (logged score id str_logs logs d)
                  (scores-ne-absent (logged-logs score id str_logs logs d)))))
            (Takes-pure _ _)))

  -- With the server up, logs that are added to an incident, whose key of logs is a sorted set or
  -- absent, are found under the identifier that is returned.
  pub get_logs-add_logs :
      (score : ℤ) (id str_logs : Text) (d : Dataset) (logs : List Scored)
      → as_scores (d.values (logs_key id)) ≡ some logs
      → Takes redis
          (add_logs redis score id str_logs >>= get_logs redis)
          d
          (ok str_logs)
          (logged score id str_logs logs d)
  unfolding get_logs
  get_logs-add_logs score id str_logs d logs stored =
      let found = logged-log score id str_logs logs d in
      Takes-bind _ (add_logs-Takes score id str_logs d logs stored) (
        Takes-bind _
          (Takes-or_error _ (Takes-call _ (exists_present redis _ _ (text-ne-absent found))))
          (Takes-or_error _ (Takes-call _ (get_text redis _ _ _ found))))

  -- With the server up, getting logs under an identifier that is not stored is an error whose text
  -- contains "no such logs", and nothing changes.
  pub get_logs-missing :
      (log_id : Text) (d : Dataset)
      → d.values log_id ≡ absent
      → Takes redis
          (get_logs redis log_id)
          d
          (err (fail (codes "no such logs with ID: " ++ log_id)))
          d
        × (contains (codes "no such logs with ID: " ++ log_id) (codes "no such logs") ≡ true)
  unfolding get_logs
  get_logs-missing log_id d h = (
    Takes-bind _ (Takes-or_error _ (Takes-call _ (exists_absent redis _ d h))) (Takes-raise _ d),
    contains-append [] (codes "no such logs") (codes " with ID: " ++ log_id),
  )

  compare_logs-Takes :
      (other str_logs : Text) (a : Scored) (rest : List Scored) (d : Dataset)
      → d.values a.member ≡ text str_logs
      → Takes redis
          (compare_logs redis other (first_two (a ∷ rest)))
          d
          (ok (eq_text str_logs other))
          d
  unfolding compare_logs
  compare_logs-Takes other str_logs a [] d found =
      Takes-bind _ (Takes-or_error _ (Takes-call _ (get_text redis _ d _ found))) (Takes-pure _ d)
  compare_logs-Takes other str_logs a (b ∷ rest) d found =
      Takes-bind _ (Takes-or_error _ (Takes-call _ (get_text redis _ d _ found))) (Takes-pure _ d)

  -- With the server up, if all logs of the incident are older than those that are added, a text is
  -- a duplicate afterwards exactly if it is the text that was added.
  pub duplicate_logs-add_logs :
      (score : ℤ) (id str_logs other : Text) (d : Dataset) (logs : List Scored)
      → as_scores (d.values (logs_key id)) ≡ some logs
      → AllBelow score logs
      → Takes redis
          (add_logs redis score id str_logs >> duplicate_logs redis id other)
          d
          (ok (eq_text str_logs other))
          (logged score id str_logs logs d)
  unfolding duplicate_logs
  duplicate_logs-add_logs score id str_logs other d logs stored newest =
      let there = logged-logs score id str_logs logs d in
      let after = logged score id str_logs logs d in
      Takes-bind _ (add_logs-Takes score id str_logs d logs stored) (
        Takes-bind _
          (Takes-or_error _ (Takes-call _ (exists_present redis _ _ (scores-ne-absent there))))
          (Takes-bind _
            (Takes-or_error _
              (Takes-call _ (zrange_rev_two-Replies redis _ _ _ (ap as_scores there))))
            (subst
              (λ l.
                Takes redis (compare_logs redis other l) after (ok (eq_text str_logs other)) after)
              (sym (latest_first (log_key id score) score logs newest))
              (compare_logs-Takes other str_logs _
                (reverse (without_member (log_key id score) logs)) _
                (logged-log score id str_logs logs d)))))

  -- With the server up, adding logs leaves the deadline of the set of logs of the incident as it
  -- was, while the set is there afterwards: a set without a deadline gets none.
  pub add_logs-deadline :
      (score : ℤ) (id str_logs : Text) (d : Dataset) (logs : List Scored)
      → as_scores (d.values (logs_key id)) ≡ some logs
      → (d' : Dataset) × Takes redis (add_logs redis score id str_logs) d (ok (log_key id score)) d'
        × (d'.values (logs_key id) ≢ absent)
        × (d'.deadlines (logs_key id) ≡ d.deadlines (logs_key id))
  add_logs-deadline score id str_logs d logs stored = (
    logged score id str_logs logs d,
    add_logs-Takes score id str_logs d logs stored,
    scores-ne-absent (logged-logs score id str_logs logs d),
    logged-deadline score id str_logs logs d,
  )
