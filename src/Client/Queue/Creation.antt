-- ===== src/Client/Queue/Creation.antt =====
-- The time stamp of the agent's first run.
use porter_agent.Base.{ℤ, ◌≡◌, pos, none, true, false, ◌≢◌, subst}
use porter_agent.Redis.Action.{◌>>=◌, pure, lift}
use porter_agent.Redis.Takes.{Takes, Takes-bind, Takes-call, Takes-pure, Takes-lift}
use porter_agent.Redis.Keyspace.{Dataset, set_deadline, put, text, absent, text-ne-absent}
use porter_agent.Redis.{Redis}
use porter_agent.Client.Queue.{
  read_timestamp, is_first_run, get_agent_creation_timestamp, set_agent_creation_timestamp,
}
use porter_agent.Text.Decimal.{IsInt64, format_int}
use porter_agent.Client.Keys.{creation_key}
use porter_agent.Result.{ok, int_of, int_of-value}
use porter_agent.Text.Equality.{eq_text_refl}
use porter_agent.Text.Decimal.RoundTrip.{parse_int-format_int}
use porter_agent.Redis.Laws.{get_text, exists_absent, exists_present, set-Replies}

-- The time stamp is stored, for ever.
abbrev pub stamped : ℤ → Dataset → Dataset
stamped now d = set_deadline creation_key none (put creation_key (text (format_int now)) d)

module _ {redis : Redis} where
  read_timestamp-Takes :
      (t : ℤ) (d : Dataset)
      → IsInt64 t
      → d.values creation_key ≡ text (format_int t)
      → Takes redis (read_timestamp redis) d (ok t) d
  unfolding read_timestamp
  read_timestamp-Takes t d fits stored = Takes-bind _ (Takes-call _ (get_text redis _ d _ stored)) (
      subst (λ r. Takes redis (lift (int_of (format_int t))) d r d)
        (int_of-value (format_int t) t (parse_int-format_int t fits)) (Takes-lift _ d))

  first_run-absent :
      (d : Dataset)
      → d.values creation_key ≡ absent
      → Takes redis (is_first_run redis) d (ok true) d
  unfolding is_first_run
  first_run-absent d h = Takes-bind _ (Takes-call _ (exists_absent redis _ d h)) (Takes-pure true d)

  first_run-present :
      (d : Dataset)
      → d.values creation_key ≢ absent
      → Takes redis (is_first_run redis) d (ok false) d
  unfolding is_first_run
  first_run-present d h =
      Takes-bind _ (Takes-call _ (exists_present redis _ d h)) (Takes-pure false d)

  first-Takes :
      (now : ℤ) (d : Dataset)
      → IsInt64 now
      → d.values creation_key ≡ absent
      → Takes redis (get_agent_creation_timestamp redis now (pos 0)) d (ok now) (stamped now d)
  unfolding get_agent_creation_timestamp set_agent_creation_timestamp
  first-Takes now d fits fresh = Takes-bind _ (first_run-absent d fresh) (
      Takes-bind _
        (Takes-bind _ (first_run-absent d fresh) (Takes-call _ (set-Replies redis _ _ none d)))
        (read_timestamp-Takes now _ fits (rw (eq_text_refl creation_key))))

  later-Takes :
      (now t : ℤ) (d : Dataset)
      → IsInt64 t
      → d.values creation_key ≡ text (format_int t)
      → Takes redis (get_agent_creation_timestamp redis now (pos 0)) d (ok t) d
  unfolding get_agent_creation_timestamp
  later-Takes now t d fits stored =
      Takes-bind _ (first_run-present d (text-ne-absent stored))
        (read_timestamp-Takes t d fits stored)

  -- With the server up and no time stamp stored, the agent stores the time of its first run, an `int64`,
  -- and gets it; an agent that is started later, with nothing in its memory, gets the same time.
  pub get_agent_creation_timestamp_twice :
      (now later : ℤ) (d : Dataset)
      → IsInt64 now
      → d.values creation_key ≡ absent
      → Takes redis {A = ℤ × ℤ}
          (do
            first ← get_agent_creation_timestamp redis now (pos 0)
            second ← get_agent_creation_timestamp redis later (pos 0)
            pure (first, second))
          d
          (ok (now, now))
          (stamped now d)
  get_agent_creation_timestamp_twice now later d fits fresh =
      Takes-bind _ (first-Takes now d fits fresh) (
        Takes-bind _ (later-Takes later now _ fits (rw (eq_text_refl creation_key)))
          (Takes-pure _ _))
