-- ===== src/Redis/Ensures.antt =====
-- Rules for runs in any world, whether the server answers or not: an invariant of the dataset is kept,
-- nothing panics, and a result comes with what is known of it.
use porter_agent.Base.{◌≡◌, Bool, true, false, if◌then◌else◌, refl, ◌≢◌, subst, sym}
use porter_agent.Result.{Error, Result, ok, err, panic}
use porter_agent.Redis.{Redis, Serves, Fate, served, lost_request, lost_reply}
use porter_agent.Redis.Keyspace.{Dataset}
use porter_agent.Redis.Action.{
  Action, Attempt, Call, Reply, reply, failed, result_of, pure, raise, call, lift, or_error,
  attempt, attempted, with_error, continue, done, error, ◌>>=◌,
}

-- The invariant `I` holds, there is no panic, and a value satisfies `Q`.
abbrev pub Verdict :
    {A : Type 0} → (Dataset → Type 0) → (A → Dataset → Type 0) → Result A → Dataset → Type 0
Verdict I Q (ok a) d = I d × Q a d
Verdict I Q (err e) d = I d
Verdict I Q panic d = ⊥

-- From a dataset with the invariant `I` and the condition `P`.
pub record Ensures (redis : Redis) (I P : Dataset → Type 0) {A : Type 0} (m : Action redis.World A)
    (Q : A → Dataset → Type 0) : Type 0 where
  pub run :
      (w : redis.World)
      → I (redis.data_of w)
      → P (redis.data_of w)
      → Verdict I Q (m w).0 (redis.data_of (m w).1)

abbrev pub Anything : Dataset → Type 0
Anything d = Unit {0}

-- What is known of the outcome of a call whose error the caller looks at itself.
abbrev pub IfDone : {A : Type 0} → (A → Dataset → Type 0) → Attempt A → Dataset → Type 0
IfDone Q (done a) d = Q a d
IfDone Q (error e) d = Unit {0}

module _ {A : Type 0} (I : Dataset → Type 0) (Q : A → Dataset → Type 0) where
  Verdict-of :
      (r : Result A) (d : Dataset)
      → I d
      → r ≢ panic
      → ((a : A) → r ≡ ok a → Q a d)
      → Verdict I Q r d
  Verdict-of (ok a) d i n h = (i, h a refl)
  Verdict-of (err e) d i n h = i
  Verdict-of panic d i n h = n refl

  Verdict-map :
      (R : A → Dataset → Type 0) (r : Result A) (d : Dataset)
      → ((a : A) → Q a d → R a d)
      → Verdict I Q r d
      → Verdict I R r d
  Verdict-map R (ok a) d h v = (v.0, h a v.1)
  Verdict-map R (err e) d h v = v
  Verdict-map R panic d h v = elim v [ ]

  Verdict-with_error :
      (f : Error → Error) (r : Result A) (d : Dataset)
      → Verdict I Q r d
      → Verdict I Q (with_error f r) d
  Verdict-with_error f (ok a) d v = v
  Verdict-with_error f (err e) d v = v
  Verdict-with_error f panic d v = elim v [ ]

  Verdict-attempted :
      (r : Result A) (d : Dataset) → Verdict I Q r d → Verdict I (IfDone Q) (attempted r) d
  Verdict-attempted (ok a) d v = v
  Verdict-attempted (err e) d v = (v, tt)
  Verdict-attempted panic d v = elim v [ ]

  Verdict-result_of :
      (r : Reply A) (d : Dataset)
      → I d
      → ((a : A) → r ≡ reply a → Q a d)
      → Verdict I Q (result_of r) d
  Verdict-result_of (reply a) d i h = (i, h a refl)
  Verdict-result_of (failed e) d i h = i

  Verdict-moved :
      {r r' : Reply A} {d d' : Dataset}
      → r ≡ r'
      → d ≡ d'
      → Verdict I Q (result_of r') d'
      → Verdict I Q (result_of r) d
  Verdict-moved {r} {d'} p q v =
      subst (Verdict I Q (result_of r)) (sym q)
        (subst (λ r. Verdict I Q (result_of r) d') (sym p) v)

module _ {redis : Redis} {I P : Dataset → Type 0} {A : Type 0} {Q : A → Dataset → Type 0} where
  pub Ensures-pure : (a : A) → ((d : Dataset) → P d → Q a d) → Ensures redis I P (pure a) Q
  unfolding pure
  Ensures-pure a h = record { run = λ w i p. (i, h (redis.data_of w) p) }

  pub Ensures-raise : (e : Error) → Ensures redis I P (raise e) Q
  unfolding raise
  Ensures-raise e = record { run = λ w i p. i }

  pub Ensures-lift :
      (r : Result A)
      → r ≢ panic
      → ((d : Dataset) (a : A) → r ≡ ok a → P d → Q a d)
      → Ensures redis I P (lift r) Q
  unfolding lift
  Ensures-lift r n h = record {
    run = λ w i p. Verdict-of I Q r (redis.data_of w) i n (λ a e. h (redis.data_of w) a e p);
  }

  pub Ensures-or_error :
      {m : Action redis.World A} (f : Error → Error)
      → Ensures redis I P m Q
      → Ensures redis I P (or_error m f) Q
  unfolding or_error
  Ensures-or_error {m} f h = record {
    run = λ w i p. Verdict-with_error I Q f (m w).0 (redis.data_of (m w).1) (h.run w i p);
  }

  pub Ensures-attempt :
      {m : Action redis.World A} → Ensures redis I P m Q → Ensures redis I P (attempt m) (IfDone Q)
  unfolding attempt
  Ensures-attempt {m} h = record {
    run = λ w i p. Verdict-attempted I Q (m w).0 (redis.data_of (m w).1) (h.run w i p);
  }

  pub Ensures-if :
      {m n : Action redis.World A} (b : Bool)
      → (b ≡ true → Ensures redis I P m Q)
      → (b ≡ false → Ensures redis I P n Q)
      → Ensures redis I P (if b then m else n) Q
  Ensures-if true h k = h refl
  Ensures-if false h k = k refl

  -- A command of the server: it keeps the invariant, and its documented reply satisfies `Q`.
  pub Ensures-call :
      {c : Call redis.World A} {f : Call Dataset A}
      → Serves redis.up redis.data_of c f
      → ((d : Dataset) → I d → P d → I (f d).1)
      → ((d : Dataset) (a : A) → I d → P d → (f d).0 ≡ reply a → Q a (f d).1)
      → Ensures redis I P (call c) Q
  unfolding call
  Ensures-call {c} {f} s h k = record { run = λ w i p. by_fate w i p (s.fate w) }
    where
      by_fate :
          (w : redis.World)
          → I (redis.data_of w)
          → P (redis.data_of w)
          → Fate (redis.data_of w) (f (redis.data_of w)) (c w).0 (redis.data_of (c w).1)
          → Verdict I Q (result_of (c w).0) (redis.data_of (c w).1)
      by_fate w i p (served r e) =
          let d = redis.data_of w in
          Verdict-moved I Q r e
            (Verdict-result_of I Q (f d).0 (f d).1 (h d i p) (λ a q. k d a i p q))
      by_fate w i p (lost_request x r e) = Verdict-moved I Q r e i
      by_fate w i p (lost_reply x r e) = Verdict-moved I Q r e (h (redis.data_of w) i p)

  -- A call of something else, which leaves the dataset alone.
  pub Ensures-outside :
      (c : Call redis.World A)
      → ((w : redis.World) → redis.data_of (c w).1 ≡ redis.data_of w)
      → ((d : Dataset) (a : A) → P d → Q a d)
      → Ensures redis I P (call c) Q
  unfolding call
  Ensures-outside c h k = record {
    run = λ w i p.
        subst (Verdict I Q (result_of (c w).0)) (sym (h w))
          (Verdict-result_of I Q (c w).0 (redis.data_of w) i (λ a q. k (redis.data_of w) a p));
  }

module _ {redis : Redis} {I P P' : Dataset → Type 0} {A : Type 0}
    {Q Q' : A → Dataset → Type 0} where
  pub Ensures-weaken :
      {m : Action redis.World A}
      → ((d : Dataset) → P' d → P d)
      → ((a : A) (d : Dataset) → Q a d → Q' a d)
      → Ensures redis I P m Q
      → Ensures redis I P' m Q'
  Ensures-weaken {m} h k e = record {
    run = λ w i p.
        Verdict-map I Q Q' (m w).0 (redis.data_of (m w).1) (λ a. k a (redis.data_of (m w).1))
          (e.run w i (h (redis.data_of w) p));
  }

module _ {redis : Redis} {I P : Dataset → Type 0} {A B : Type 0} {Q : A → Dataset → Type 0}
    {R : B → Dataset → Type 0} where
  pub Ensures-bind :
      {m : Action redis.World A} {f : A → Action redis.World B}
      → Ensures redis I P m Q
      → ((a : A) → Ensures redis I (Q a) (f a) R)
      → Ensures redis I P (m >>= f) R
  unfolding ◌>>=◌
  Ensures-bind {m} {f} h k = record { run = λ w i p. after (m w).0 (m w).1 (h.run w i p) }
    where
      after :
          (r : Result A) (w : redis.World)
          → Verdict I Q r (redis.data_of w)
          → Verdict I R (continue r f w).0 (redis.data_of (continue r f w).1)
      after (ok a) w v = (k a).run w v.0 v.1
      after (err e) w v = v
      after panic w v = elim v [ ]

module _ {redis : Redis} {I P : Dataset → Type 0} {A : Type 0} {Q : A → Dataset → Type 0} where
  -- Code that is never reached.
  pub Ensures-unreached :
      {m : Action redis.World A} → ((d : Dataset) → I d → P d → ⊥) → Ensures redis I P m Q
  Ensures-unreached h = record { run = λ w i p. absurd (h (redis.data_of w) i p) }

  -- A condition that follows from the invariant.
  pub Ensures-given :
      {m : Action redis.World A} {R : Type 0}
      → ((d : Dataset) → I d → P d → R)
      → (R → Ensures redis I P m Q)
      → Ensures redis I P m Q
  Ensures-given h k = record { run = λ w i p. (k (h (redis.data_of w) i p)).run w i p }

pub result_of-ne-panic : {A : Type 0} (r : Reply A) → result_of r ≢ panic
result_of-ne-panic (reply a) e = cc
result_of-ne-panic (failed x) e = cc
