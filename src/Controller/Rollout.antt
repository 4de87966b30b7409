-- ===== src/Controller/Rollout.antt =====
-- How many pods of a deployment may be missing (`controllers/pod_controller.go`).
pub mod Safe
use porter_agent.Result.{◌>>=◌, Result, panic, ok, err}
use porter_agent.Base.{
  ℤ, Option, sub_ℕ, Bool, pos, ◌%◌, pos_part, ◌==◌, if◌then◌else◌, false, some, ◌^◌, ◌+◌, not,
  negsuc, ltb, neg_part, ◌-◌, ltb_ℤ,
}
use porter_agent.Kube.{Cluster, IntOrString, Deployment, Lookup, int, failure, found, not_found}
use porter_agent.Text.{Text}
use mathlib.Core.Option.{none}

-- The value of an `int` or of an `int32` expression in 32 bits.
unfoldable pub int32 : ℤ → ℤ
int32 (pos n) = let r = n % 2 ^ 32 in if ltb r (2 ^ 31) then pos r else negsuc (2 ^ 32 - 1 - r)
int32 (negsuc n) = let r = n % 2 ^ 32 in if ltb r (2 ^ 31) then negsuc r else pos (2 ^ 32 - 1 - r)

-- a - b
abbrev pub minus : ℤ → ℤ → ℤ
minus a b = sub_ℕ (pos_part a + neg_part b) (pos_part b + neg_part a)

-- A dereference of a pointer.
abbrev pub value_of : {A : Type 0} → Option A → Result A
value_of none = panic
value_of (some a) = ok a

-- intstrutil.ValueOrDefault(maxUnavailable, intstrutil.FromInt(0))
abbrev or_zero : Option IntOrString → IntOrString
or_zero none = int (pos 0)
or_zero (some v) = v

abbrev or_none : Result ℤ → Result ℤ
or_none (ok unavailable) = ok (int32 unavailable)
or_none (err e) = ok (pos 0)
or_none panic = panic

abbrev is_zero : ℤ → Bool
is_zero (pos n) = n == 0
is_zero (negsuc n) = false

module _ {W : Type 0} (cluster : Cluster W) where
  unfoldable pub get_max_unavailable : Deployment → Result ℤ
  unfolding int32
  get_max_unavailable deployment = if not deployment.is_rolling_update then ok (pos 0) else do
    desired ← value_of deployment.replicas
    if is_zero desired then ok (pos 0) else do
      max_unavailable ← value_of deployment.rolling_update
      or_none (cluster.scaled_value (or_zero max_unavailable) desired)

  abbrev can_ignore : Lookup Deployment → Result Bool
  can_ignore not_found = ok false
  can_ignore (failure e) = ok false
  can_ignore (found depl) = do
    replicas ← value_of depl.replicas
    unavailable ← get_max_unavailable depl
    ok (not (ltb_ℤ depl.ready_replicas (int32 (minus replicas unavailable))))

  -- The callers drop the error, with which the answer is false.
  unfoldable pub can_ignore_multipod_deployment : Text → Text → Result Bool
  unfolding get_max_unavailable
  can_ignore_multipod_deployment namespace name = can_ignore (cluster.get_deployment namespace name)
