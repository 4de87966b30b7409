-- ===== src/System/Safe.antt =====
-- Every history keeps what each key holds, and no goroutine panics.
use porter_agent.Base.{
  ◌≡◌, ◌⊎◌, false, inl, subst, sym, inr, refl, ℤ, List, All, ◌∷◌, if◌then◌else◌,
}
use porter_agent.Redis.Keyspace.{Dataset, absent}
use porter_agent.Redis.{Redis}
use porter_agent.Text.{Text}
use porter_agent.Client.Typing.{IsSound, Fits, kind_of, Fits-absent}
use porter_agent.System.{
  State, Event, pod_changed, after, request, five_minutes, elsewhere, pulse, Setup, after_reconcile,
  next, step, run,
}
use porter_agent.Redis.Action.{Action}
use porter_agent.Redis.Ensures.{Ensures, Anything, Verdict}
use porter_agent.Kube.{IsValid}
use porter_agent.Text.Decimal.{IsInt64}
use porter_agent.Result.{Result, ok, err, panic}
use porter_agent.Controller.Outcome.{Outcome}
use porter_agent.Models.{NeverPanics}
use porter_agent.Consumer.Safe.{StandsApart, consume-Ensures}
use porter_agent.Controller.Reconcile.Safe.{reconcile-Ensures}
use porter_agent.Handlers.Routes.{answer-Ensures}
use porter_agent.Controller.Deleted.Safe.{pass-Ensures}
use mathlib.Core.List.{[]}

-- Keys may be deleted, as by their deadlines; no other client writes.
pub record Ages (d d' : Dataset) : Type 0 where
  pub kept : (k : Text) → (d'.values k ≡ d.values k) ⊎ (d'.values k ≡ absent)

Ages-IsSound : (d d' : Dataset) → Ages d d' → IsSound d → IsSound d'
Ages-IsSound d d' a s = record {
  fits = λ k. elim (a.kept k) [
    | inl same ↦ subst (Fits (kind_of k) k) (sym same) (s.fits k)
    | inr gone ↦ subst (Fits (kind_of k) k) (sym gone) (Fits-absent (kind_of k) k)
  ];
}

module _ {redis : Redis} where
  -- The API server of the moment keeps its guarantees, and the clock is an `int64`.
  abbrev pub IsAdmissible : Event redis → Type 0
  IsAdmissible (pod_changed cluster clock namespace name) =
      IsValid redis.data_of cluster × IsInt64 clock.created
  IsAdmissible pulse = Unit {0}
  IsAdmissible (request r) = Unit {0}
  IsAdmissible (five_minutes clientset now) = Unit {0}
  IsAdmissible (elsewhere f) = (w : redis.World) → Ages (redis.data_of w) (redis.data_of (f w))

  -- The program runs, and every key holds what its kind allows.
  pub record IsHealthy (s : State redis) : Type 0 where
    pub running : s.crashed ≡ false
    pub sound : IsSound (redis.data_of s.world)

  by_result-IsHealthy :
      {A : Type 0} (s : State redis) (r : Result A) (w : redis.World)
      → Verdict IsSound (λ _. Anything) r (redis.data_of w)
      → IsHealthy (after s (r, w))
  by_result-IsHealthy s (ok a) w v = record { running = refl; sound = v.0 }
  by_result-IsHealthy s (err x) w v = record { running = refl; sound = v }
  by_result-IsHealthy s panic w v = elim v [ ]

  after-IsHealthy :
      {A : Type 0} (m : Action redis.World A) (s : State redis)
      → Ensures redis IsSound Anything m (λ _. Anything)
      → IsHealthy s
      → IsHealthy (after s (m s.world))
  after-IsHealthy m s e h =
      by_result-IsHealthy s (m s.world).0 (m s.world).1 (e.run s.world h.sound tt)

  -- The global does not matter.
  recached-IsHealthy :
      (s : State redis) (r : Result (Outcome × ℤ) × redis.World)
      → IsHealthy (after s r)
      → IsHealthy (after_reconcile s r)
  recached-IsHealthy s r h = record { running = h.running; sound = h.sound }

module _ {redis : Redis} (setup : Setup redis) (returns : NeverPanics setup.codec)
    (apart : StandsApart redis.data_of setup.server.transport) where
  next-IsHealthy :
      (event : Event redis) (s : State redis)
      → IsAdmissible event
      → IsHealthy s
      → IsHealthy (next setup s event)
  unfolding next
  next-IsHealthy (pod_changed cluster clock namespace name) s (valid, in_range) h =
      recached-IsHealthy s _ (
        after-IsHealthy _ s
          (reconcile-Ensures returns cluster valid setup.porter_host setup.visit clock in_range
            namespace name s.cached)
          h)
  next-IsHealthy pulse s a h = after-IsHealthy _ s (consume-Ensures setup.server returns apart) h
  next-IsHealthy (request r) s a h = after-IsHealthy _ s (answer-Ensures returns r) h
  next-IsHealthy (five_minutes clientset now) s a h =
      after-IsHealthy _ s (pass-Ensures clientset now) h
  next-IsHealthy (elsewhere f) s a h = record {
    running = h.running;
    sound = Ages-IsSound (redis.data_of s.world) (redis.data_of (f s.world)) (a s.world) h.sound;
  }

  step-IsHealthy :
      (event : Event redis) (s : State redis)
      → IsAdmissible event
      → IsHealthy s
      → IsHealthy (step setup s event)
  unfolding step
  step-IsHealthy event s a h =
      subst (λ b. IsHealthy (if b then s else next setup s event)) (sym h.running)
        (next-IsHealthy event s a h)

  -- Let the event codec and the HTTP transport give results or errors, and let an exchange with the
  -- porter server write nothing to Redis. From a program that runs, on a dataset in which every key
  -- holds what its kind allows, take any history of calls of the controller, rounds of the
  -- consumer, requests and passes over the deleted pods. Between them keys may disappear, but no
  -- other client writes; the API server of each call of the controller keeps its guarantees, and
  -- the time of each new incident is an `int64`. Then no method has panicked, and every key holds
  -- what its kind allows, whether or not the Redis server has answered, and whether or not it has
  -- carried out a command that it did not answer.
  pub run-IsHealthy :
      (events : List (Event redis)) (s : State redis)
      → All IsAdmissible events
      → IsHealthy s
      → IsHealthy (run setup s events)
  unfolding run
  run-IsHealthy [] s a h = h
  run-IsHealthy (event ∷ events) s (a, all) h =
      run-IsHealthy events (step setup s event) all (step-IsHealthy event s a h)
