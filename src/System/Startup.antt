-- ===== src/System/Startup.antt =====
-- The loop of `main` that waits for the Redis server (`main.go`).
use mathlib.Core.List.{Memᴰ}
use mathlib.Core.List.Memᴰ.{head, tail}
use porter_agent.Text.Equality.{eq_text_iff, eq_text_refl}
use porter_agent.Base.{
  Bool-cases, inl, inr, sym, arith, List, Bool, Option, false, none, ◌∷◌, if◌then◌else◌, some, ◌||◌,
  ◌≡◌, true, refl,
}
use porter_agent.Redis.Action.{Reply, failed, reply}
use porter_agent.Kube.{Pod}
use porter_agent.Text.{eq_text, codes}
use mathlib.Core.List.{[]}

unfoldable pub has_running : List Pod → Bool
has_running [] = false
has_running (pod ∷ pods) = eq_text pod.phase (codes "Running") || has_running pods

-- err == nil && len(pods.Items) > 0 && running
abbrev pub is_ready : Reply (List Pod) → Bool
is_ready (failed e) = false
is_ready (reply pods) = has_running pods

-- The answers to the queries of the loop, one every two seconds: what is left of them when the loop
-- ends, or `none` if it goes on after the last one.
unfoldable pub wait_for_redis : List (Reply (List Pod)) → Option (List (Reply (List Pod)))
unfolding has_running
wait_for_redis [] = none
wait_for_redis (answer ∷ answers) =
    let later = wait_for_redis answers in if is_ready answer then some answers else later

-- The answer lists a pod whose phase is "Running".
abbrev pub IsUp : Reply (List Pod) → Type 0
IsUp answer =
    (pods : List Pod) × (pod : Pod) × (answer ≡ reply pods)
    × Memᴰ pod pods
    × (pod.phase ≡ codes "Running")

-- The loop passes over the answers that list no running pod, the errors among them, and ends with the
-- first one that does; the rest of the answers is not asked for.
pub data Waits : List (Reply (List Pod)) → Option (List (Reply (List Pod))) → Type 0 where
  going_on : Waits [] none
  not_up :
      (answer : Reply (List Pod)) (answers : List (Reply (List Pod)))
      (rest : Option (List (Reply (List Pod))))
      → (¬ IsUp answer)
      → Waits answers rest
      → Waits (answer ∷ answers) rest
  up :
      (answer : Reply (List Pod)) (answers : List (Reply (List Pod)))
      → IsUp answer
      → Waits (answer ∷ answers) (some answers)

has_running_sound :
    (pods : List Pod)
    → has_running pods ≡ true
    → (pod : Pod) × Memᴰ pod pods × (pod.phase ≡ codes "Running")
unfolding has_running
has_running_sound [] h = absurd (cc h)
has_running_sound (pod ∷ pods) h = elim (Bool-cases (eq_text pod.phase (codes "Running"))) [
  | inl same ↦ (pod, head refl, (eq_text_iff _ _).0 same)
  | inr other ↦ let (p, m, e) = has_running_sound pods (rw other at h) in (p, tail m, e)
]

has_running_complete :
    (pod : Pod) (pods : List Pod)
    → Memᴰ pod pods
    → pod.phase ≡ codes "Running"
    → has_running pods ≡ true
unfolding has_running
has_running_complete pod [] m e = elim m [ ]
has_running_complete pod (p ∷ pods) (head same) e = rw (sym same, e, eq_text_refl (codes "Running"))
has_running_complete pod (p ∷ pods) (tail m) e =
    rw (has_running_complete pod pods m e) (ground arith)

is_ready-IsUp : (answer : Reply (List Pod)) → is_ready answer ≡ true → IsUp answer
is_ready-IsUp (failed e) h = absurd (cc h)
is_ready-IsUp (reply pods) h = let (pod, m, e) = has_running_sound pods h in (pods, pod, refl, m, e)

IsUp-is_ready : (answer : Reply (List Pod)) → IsUp answer → is_ready answer ≡ true
IsUp-is_ready answer (pods, pod, same, m, e) = rw same (has_running_complete pod pods m e)

-- The loop that waits for Redis ends with the first answer that lists a pod in the phase "Running", and
-- goes on after every other one, an error or a list without such a pod.
pub wait_for_redis-Waits :
    (answers : List (Reply (List Pod))) → Waits answers (wait_for_redis answers)
unfolding wait_for_redis
wait_for_redis-Waits [] = going_on
wait_for_redis-Waits (answer ∷ answers) = elim (Bool-cases (is_ready answer)) [
  | inl ready ↦ rw ready (up answer answers (is_ready-IsUp answer ready))
  | inr unready ↦ rw unready (
      not_up answer answers (wait_for_redis answers) (λ h. cc (unready, IsUp-is_ready answer h))
        (wait_for_redis-Waits answers))
]
