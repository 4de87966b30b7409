-- ===== src/Client/Typing/Calls.antt =====
-- The calls of the client library on a dataset in which each key holds what it may hold.
use porter_agent.Base.{◌≡◌, Option, ℤ, All, ◌≢◌, pos, negsuc, ◌∷◌, subst, [], sym, true}
use porter_agent.Redis.{Redis, literal_prefix}
use porter_agent.Redis.Keyspace.{
  Dataset, text, absent, as_scores, Scored, as_members, remove_member,
}
use porter_agent.Text.{Text, has_prefix}
use porter_agent.Redis.Ensures.{Ensures, Ensures-call, Anything}
use porter_agent.Client.Typing.Commands.{
  AllowsScores, AllowsMembers, Counts, count_of-absent, text_of-reply, expire_value-IsSound,
  on_kind-IsSound, ListsLast, put_added-IsSound, add_member-cons, put_members-IsSound,
  on_kind-reply, pop-IsSound, on_kind_same, pop-cons,
}
use porter_agent.Client.Typing.{
  IsSound, Fits, kind_of, IsScores, set_deadline-IsSound, delete-IsSound, put-IsSound,
}
use porter_agent.Redis.Action.{call, reply}
use mathlib.Core.List.{reverse}

replied : {A : Type 0} (a b : A) → reply a ≡ reply b → a ≡ b
replied a b e = cc

module _ (redis : Redis) {P : Dataset → Type 0} where
  pub exists-Ensures :
      (k : Text) → Ensures redis IsSound P (call (redis.exists k)) (λ n d. P d × Counts k n d)
  exists-Ensures k =
      Ensures-call (redis.exists_lem k) (λ d i p. i)
        λ d n i p e. (p, count_of-absent (d.values k) n e)

  pub get-Ensures :
      (k : Text)
      → Ensures redis IsSound P
          (call (redis.get k))
          (λ t d. IsSound d × P d × (d.values k ≡ text t))
  get-Ensures k =
      Ensures-call (redis.get_lem k) (λ d i p. i)
        λ d t i p e. (i, p, text_of-reply (d.values k) t e)

  pub set-Ensures :
      (k t : Text) (ttl : Option ℤ)
      → Fits (kind_of k) k (text t)
      → Ensures redis IsSound P (call (redis.set k t ttl)) (λ _. Anything)
  set-Ensures k t ttl h =
      Ensures-call (redis.set_lem k t ttl)
        (λ d i p. set_deadline-IsSound k _ _ (put-IsSound k (text t) d h i)) λ d a i p e. tt

  pub del-Ensures : (k : Text) → Ensures redis IsSound P (call (redis.del k)) (λ _. Anything)
  del-Ensures k = Ensures-call (redis.del_lem k) (λ d i p. delete-IsSound k d i) λ d a i p e. tt

  pub expire_at-Ensures :
      (k : Text) (t : ℤ) → Ensures redis IsSound P (call (redis.expire_at k t)) (λ _. Anything)
  expire_at-Ensures k t =
      Ensures-call (redis.expire_at_lem k t) (λ d i p. expire_value-IsSound k t (d.values k) d i)
        λ d a i p e. tt

  pub zadd-Ensures :
      (k : Text) (x : ℤ) (m : Text)
      → AllowsScores k
      → Ensures redis IsSound P (call (redis.zadd k x m)) (λ _. Anything)
  zadd-Ensures k x m h =
      Ensures-call (redis.zadd_lem k x m)
        (λ d i p.
          on_kind-IsSound (as_scores (d.values k)) _ d _ i λ l e. put_added-IsSound k m x l d h i)
        λ d a i p e. tt

  pub zpopmin-Ensures :
      (k : Text)
      → AllowsScores k
      → ((d : Dataset) → IsSound d → IsScores (d.values k))
      → ((d : Dataset) → P d → d.values k ≢ absent)
      → Ensures redis IsSound P (call (redis.zpopmin k)) (λ l d. (a : Scored) × (l ≡ a ∷ []))
  zpopmin-Ensures k h t n =
      Ensures-call (redis.zpopmin_lem k) (λ d i p. pop-IsSound k (as_scores (d.values k)) d h i)
        λ d l i p e. pop-cons k (d.values k) d l (t d i) (n d p) e

  pub sadd-Ensures :
      (k m : Text)
      → AllowsMembers k
      → Ensures redis IsSound P (call (redis.sadd k m)) (λ _. Anything)
  sadd-Ensures k m h =
      Ensures-call (redis.sadd_lem k m)
        (λ d i p.
          on_kind-IsSound (as_members (d.values k)) _ d _ i
            λ l e. let (b, r, q) = add_member-cons m l in put-IsSound k _ d (rw q (h b r)) i)
        λ d a i p e. tt

  pub srem-Ensures :
      (k m : Text)
      → AllowsMembers k
      → Ensures redis IsSound P (call (redis.srem k m)) (λ _. Anything)
  srem-Ensures k m h =
      Ensures-call (redis.srem_lem k m)
        (λ d i p.
          on_kind-IsSound (as_members (d.values k)) _ d _ i
            λ l e. put_members-IsSound k (remove_member m l) d h i)
        λ d a i p e. tt

  pub smembers-Ensures : (k : Text) → Ensures redis IsSound P (call (redis.smembers k)) (λ _. P)
  smembers-Ensures k =
      Ensures-call (redis.smembers_lem k)
        (λ d i p. on_kind-IsSound (as_members (d.values k)) _ d _ i λ l e. i)
        λ d l i p e. subst P (sym (on_kind_same (as_members (d.values k)) _ d)) p

  pub zrange_all-Ensures :
      (k : Text) → Ensures redis IsSound P (call (redis.zrange k (pos 0) (negsuc 0))) (λ _. P)
  zrange_all-Ensures k =
      Ensures-call (redis.zrange_all k)
        (λ d i p. on_kind-IsSound (as_scores (d.values k)) _ d _ i λ l e. i)
        λ d l i p e. subst P (sym (on_kind_same (as_scores (d.values k)) _ d)) p

  pub zrange_rev_two-Ensures :
      (k : Text) → Ensures redis IsSound P (call (redis.zrange_rev k (pos 0) (pos 1))) (λ _. P)
  zrange_rev_two-Ensures k =
      Ensures-call (redis.zrange_rev_two k)
        (λ d i p. on_kind-IsSound (as_scores (d.values k)) _ d _ i λ l e. i)
        λ d l i p e. subst P (sym (on_kind_same (as_scores (d.values k)) _ d)) p

  pub zrange_rev_all-Ensures :
      (k : Text)
      → Ensures redis IsSound P
          (call (redis.zrange_rev k (pos 0) (negsuc 0)))
          (λ l d. IsSound d × P d × ListsLast k l d)
  zrange_rev_all-Ensures k =
      Ensures-call (redis.zrange_rev_all k)
        (λ d i p. on_kind-IsSound (as_scores (d.values k)) _ d _ i λ l e. i)
        λ d l i p e.
          let (s, q, r) = on_kind-reply (as_scores (d.values k)) reverse d (λ _. d) l e in
          subst (λ d. IsSound d × P d × ListsLast k l d)
            (sym (on_kind_same (as_scores (d.values k)) reverse d)) (i, p, (s, q, r))

  pub keys-Ensures :
      (pattern : Text)
      → Ensures redis IsSound P (call (redis.keys pattern)) (λ l d.
        IsSound d
        × All (λ k. (d.values k ≢ absent) × (has_prefix k (literal_prefix pattern) ≡ true)) l)
  keys-Ensures pattern =
      Ensures-call (redis.keys_lem pattern) (λ d i p. i)
        λ d l i p e. (
          i,
          subst (All (λ k. (d.values k ≢ absent) × (has_prefix k (literal_prefix pattern) ≡ true)))
              (replied (redis.listing pattern d) l e) (redis.listing_sound pattern d),
        )
