-- ===== src/Redis/Takes.antt =====
-- Rules for runs against a server that is up: how the result and the dataset of a method follow from
-- those of its steps.
use porter_agent.Base.{ap, sym, subst, ◌≡◌, refl, true, ap}
use porter_agent.Result.{Error, Result, ok, err}
use porter_agent.Redis.{Redis}
use porter_agent.Redis.Laws.{Replies}
use porter_agent.Redis.Keyspace.{Dataset}
use porter_agent.Redis.Action.{
  Action, Call, Reply, result_of, pure, raise, call, lift, or_error, with_error, attempt, attempted,
  continue, ◌>>=◌,
}

-- From the dataset `d`, the method ends with the result `r` and leaves the dataset `d'`.
pub record Takes (redis : Redis) {A : Type 0} (m : Action redis.World A) (d : Dataset)
    (r : Result A) (d' : Dataset) : Type 0 where
  pub run :
      (w : redis.World)
      → redis.up w ≡ true
      → redis.data_of w ≡ d
      → ((m w).0 ≡ r) × (redis.up (m w).1 ≡ true) × (redis.data_of (m w).1 ≡ d')

module _ {redis : Redis} {A : Type 0} where
  pub Takes-pure : (a : A) (d : Dataset) → Takes redis (pure a) d (ok a) d
  unfolding pure
  Takes-pure a d = record { run = λ w u e. (refl, u, e) }

  pub Takes-raise : (e : Error) (d : Dataset) → Takes redis {A = A} (raise e) d (err e) d
  unfolding raise
  Takes-raise e d = record { run = λ w u e. (refl, u, e) }

  pub Takes-lift : (r : Result A) (d : Dataset) → Takes redis (lift r) d r d
  unfolding lift
  Takes-lift r d = record { run = λ w u e. (refl, u, e) }

  pub Takes-call :
      (c : Call redis.World A) {d d' : Dataset} {r : Reply A}
      → Replies redis.up redis.data_of c d r d'
      → Takes redis (call c) d (result_of r) d'
  unfolding call
  Takes-call c h = record { run = λ w u e. let (p, v, q) = h w u e in (ap result_of p, v, q) }

  pub Takes-or_error :
      {m : Action redis.World A} (f : Error → Error) {d d' : Dataset} {r : Result A}
      → Takes redis m d r d'
      → Takes redis (or_error m f) d (with_error f r) d'
  unfolding or_error
  Takes-or_error f h = record {
    run = λ w u e. let (p, v, q) = h.run w u e in (ap (with_error f) p, v, q);
  }

  pub Takes-attempt :
      {m : Action redis.World A} {d d' : Dataset} {r : Result A}
      → Takes redis m d r d'
      → Takes redis (attempt m) d (attempted r) d'
  unfolding attempt
  Takes-attempt h = record { run = λ w u e. let (p, v, q) = h.run w u e in (ap attempted p, v, q) }

module _ {redis : Redis} {A B : Type 0} where
  pub Takes-bind :
      {m : Action redis.World A} (f : A → Action redis.World B) {d d₁ d₂ : Dataset} {a : A}
      {r : Result B}
      → Takes redis m d (ok a) d₁
      → Takes redis (f a) d₁ r d₂
      → Takes redis (m >>= f) d r d₂
  unfolding ◌>>=◌
  Takes-bind {m} f {d₂} {r} h k = record {
    run = λ w u e.
        let (p, v, q) = h.run w u e in
        subst
          (λ s.
            ((continue s f (m w).1).0 ≡ r)
            × (redis.up (continue s f (m w).1).1 ≡ true)
            × (redis.data_of (continue s f (m w).1).1 ≡ d₂))
          (sym p) (k.run (m w).1 v q);
  }

  pub Takes-bind_err :
      {m : Action redis.World A} (f : A → Action redis.World B) {d d₁ : Dataset} {e : Error}
      → Takes redis m d (err e) d₁
      → Takes redis (m >>= f) d (err e) d₁
  unfolding ◌>>=◌
  Takes-bind_err {m} f {d₁} {e} h = record {
    run = λ w u q.
        let (p, v, t) = h.run w u q in
        subst
          (λ s.
            ((continue s f (m w).1).0 ≡ err e)
            × (redis.up (continue s f (m w).1).1 ≡ true)
            × (redis.data_of (continue s f (m w).1).1 ≡ d₁))
          (sym p) (refl, v, t);
  }
