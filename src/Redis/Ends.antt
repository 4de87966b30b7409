-- ===== src/Redis/Ends.antt =====
-- Rules for what a method does last: it ends in the very world that a call has left, so the call has been
-- made. The call may be one of another server than Redis.
use porter_agent.Base.{◌≡◌, true, ap, sym, subst, ◌∙◌}
use porter_agent.Redis.{Redis}
use porter_agent.Redis.Action.{
  Action, Call, call, attempt, ◌>>=◌, done, pure, reply, continue, result_of, attempted,
}
use porter_agent.Redis.Keyspace.{Dataset}
use porter_agent.Result.{ok, Result}
use porter_agent.Redis.Laws.{Replies}
use porter_agent.Redis.Takes.{Takes}

-- From the dataset `d`, the method ends with the value `a`, and the last thing that it does is the call
-- `c`, on the dataset `d'`.
pub record Ends (redis : Redis) {A R : Type 0} (m : Action redis.World A) (d : Dataset) (a : A)
    (c : Call redis.World R) (d' : Dataset) : Type 0 where
  pub run :
      (w : redis.World)
      → redis.up w ≡ true
      → redis.data_of w ≡ d
      → (w' : redis.World) × (redis.up w' ≡ true)
        × (redis.data_of w' ≡ d')
        × (m w ≡ (ok a, (c w').1))

module _ {redis : Redis} {A : Type 0} where
  pub Ends-call :
      (c : Call redis.World A) (a : A) {d d' : Dataset}
      → Replies redis.up redis.data_of c d (reply a) d'
      → Ends redis (call c) d a c d
  unfolding call
  Ends-call c a h = record {
    run = λ w u e. let (p, v, q) = h w u e in (w, u, e, ap (λ r. (result_of r, (c w).1)) p);
  }

module _ {redis : Redis} {A R : Type 0} where
  pub Ends-attempt :
      {m : Action redis.World A} {d d' : Dataset} {a : A} {c : Call redis.World R}
      → Ends redis m d a c d'
      → Ends redis (attempt m) d (done a) c d'
  unfolding attempt
  Ends-attempt h = record {
    run = λ w u e.
        let (w', v, q, p) = h.run w u e in
        (w', v, q, ap (λ (s : Result A × redis.World). (attempted s.0, s.1)) p);
  }

module _ {redis : Redis} {A B R : Type 0} where
  -- What comes before the last call.
  pub Ends-bind :
      {m : Action redis.World A} (f : A → Action redis.World B) {d d₁ d₂ : Dataset} {a : A} {b : B}
      {c : Call redis.World R}
      → Takes redis m d (ok a) d₁
      → Ends redis (f a) d₁ b c d₂
      → Ends redis (m >>= f) d b c d₂
  unfolding ◌>>=◌
  Ends-bind {m} f {d₂} {b} {c} h k = record {
    run = λ w u e.
        let (p, v, q) = h.run w u e in
        subst
          (λ s.
            (w' : redis.World) × (redis.up w' ≡ true)
            × (redis.data_of w' ≡ d₂)
            × (continue s f (m w).1 ≡ (ok b, (c w').1)))
          (sym p) (k.run (m w).1 v q);
  }

  -- A value that is computed after the last call.
  pub Ends-map :
      {m : Action redis.World A} (f : A → Action redis.World B) {d d' : Dataset} {a : A} {b : B}
      {c : Call redis.World R}
      → f a ≡ pure b
      → Ends redis m d a c d'
      → Ends redis (m >>= f) d b c d'
  unfolding ◌>>=◌ pure
  Ends-map {m} f {a} {b} {c} same h = record {
    run = λ w u e.
        let (w', v, q, p) = h.run w u e in
        (
          w',
          v,
          q,
          ap (λ (s : Result A × redis.World). continue s.0 f s.1) p
              ∙ ap (λ (g : Action redis.World B). g (c w').1) same,
        );
  }
