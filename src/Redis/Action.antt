-- ===== src/Redis/Action.antt =====
-- Methods of the agent: they run against a world, may fail, and may panic. What was written before an
-- error stays written, so the world comes back beside the error too.
use porter_agent.Result.{Error, Result, ok, err, panic}

-- What a call of a Redis client returns: its reply or an error.
pub data Reply {ℓ} (A : Type ℓ) : Type ℓ where
  reply : A → Reply A
  failed : Error → Reply A

abbrev pub Call : Type 0 → Type 0 → Type 0
Call W A = W → Reply A × W

abbrev pub Action : Type 0 → Type 0 → Type 0
Action W A = W → Result A × W

abbrev pub result_of : {A : Type 0} → Reply A → Result A
result_of (reply a) = ok a
result_of (failed e) = err e

abbrev pub with_error : {A : Type 0} → (Error → Error) → Result A → Result A
with_error f (ok a) = ok a
with_error f (err e) = err (f e)
with_error f panic = panic

module _ {W A : Type 0} where
  unfoldable pub pure : A → Action W A
  pure a w = (ok a, w)

  unfoldable pub raise : Error → Action W A
  raise e w = (err e, w)

  -- A nil dereference or an index out of range.
  unfoldable pub crash : Action W A
  crash w = (panic, w)

  unfoldable pub call : Call W A → Action W A
  call c w = let (r, w') = c w in (result_of r, w')

  unfoldable pub lift : Result A → Action W A
  lift r w = (r, w)

  -- if err != nil { return fmt.Errorf(...) }
  unfoldable pub or_error : Action W A → (Error → Error) → Action W A
  or_error m f w = let (r, w') = m w in (with_error f r, w')

module _ {W A B : Type 0} where
  abbrev pub continue : Result A → (A → Action W B) → Action W B
  continue (ok a) f w = f a w
  continue (err e) f w = (err e, w)
  continue panic f w = (panic, w)

  infixl 10 ◌>>=◌ ◌>>◌
  unfoldable pub ◌>>=◌ : Action W A → (A → Action W B) → Action W B
  unfolding pure raise crash call lift or_error
  ◌>>=◌ m f w = let (r, w') = m w in continue r f w'

  abbrev pub ◌>>◌ : Action W A → Action W B → Action W B
  m >> n = m >>= λ _. n

-- What a caller sees that goes on after an error: the value or the error.
pub data Attempt {ℓ} (A : Type ℓ) : Type ℓ where
  done : A → Attempt A
  error : Error → Attempt A

abbrev pub attempted : {A : Type 0} → Result A → Result (Attempt A)
attempted (ok a) = ok (done a)
attempted (err e) = ok (error e)
attempted panic = panic

module _ {W A : Type 0} where
  -- v, err := m, where the caller looks at the error itself
  unfoldable pub attempt : Action W A → Action W (Attempt A)
  attempt m w = let (r, w') = m w in (attempted r, w')
