-- ===== src/Redis/Laws.antt =====
-- The commands in a world that is up, case by case.
use porter_agent.Base.{
  ℤ, pos, negsuc, ◌≡◌, ◌≢◌, Bool, true, List, [], ◌∷◌, Option, some, ltb_ℤ, ap, ◌∙◌, refl,
}
use mathlib.Core.List.{reverse, map}
use porter_agent.Text.{Text}
use porter_agent.Redis.{Redis, Serves}
use porter_agent.Redis.Action.{Reply, Call, reply}
use porter_agent.Redis.Commands.{
  first_two, deadline_in, count_of, text_of, expire_value, on_kind, pop,
}
use porter_agent.Redis.Keyspace.{
  Dataset, Scored, Value, absent, text, scores, members, put, set_deadline, delete, add_scored,
  add_member, remove_member, as_scores, as_members, put_members, put_scores,
}

-- In a world that is up and has the dataset `d`, the call replies `r` and leaves the dataset `d'`.
abbrev pub Replies :
    {W A : Type 0} → (W → Bool) → (W → Dataset) → Call W A → Dataset → Reply A → Dataset → Type 0
Replies {W} up data_of c d r d' =
    (w : W)
    → up w ≡ true
    → data_of w ≡ d
    → ((c w).0 ≡ r) × (up (c w).1 ≡ true) × (data_of (c w).1 ≡ d')

Serves-Replies :
    {W A : Type 0} {up : W → Bool} {data_of : W → Dataset} {c : Call W A} {f : Call Dataset A}
    (d : Dataset) {r : Reply A} {d' : Dataset}
    → Serves up data_of c f
    → f d ≡ (r, d')
    → Replies up data_of c d r d'
Serves-Replies {f} d s h w u e =
    let (p, v, q) = s.answers w u in
    (p ∙ ap (λ x. (f x).0) e ∙ ap (λ x. x.0) h, v, q ∙ ap (λ x. (f x).1) e ∙ ap (λ x. x.1) h)

count_of-present : (v : Value) → v ≢ absent → count_of v ≡ 1
count_of-present absent h = absurd (h refl)
count_of-present (text t) h = refl
count_of-present (scores l) h = refl
count_of-present (members l) h = refl

expire_value-later :
    (k : Text) (t : ℤ) (d : Dataset) (v : Value)
    → v ≢ absent
    → ltb_ℤ d.clock t ≡ true
    → expire_value k t v d ≡ set_deadline k (some t) d
expire_value-later k t d absent h e = absurd (h refl)
expire_value-later k t d (text _) h e = rw e
expire_value-later k t d (scores _) h e = rw e
expire_value-later k t d (members _) h e = rw e

module _ (redis : Redis) where
  open redis use {up, data_of}

  pub exists_absent :
      (k : Text) (d : Dataset)
      → d.values k ≡ absent
      → Replies up data_of (redis.exists k) d (reply 0) d
  exists_absent k d h = Serves-Replies d (redis.exists_lem k) (ap (λ v. (reply (count_of v), d)) h)

  pub exists_present :
      (k : Text) (d : Dataset)
      → d.values k ≢ absent
      → Replies up data_of (redis.exists k) d (reply 1) d
  exists_present k d h =
      Serves-Replies d (redis.exists_lem k)
        (ap (λ n. (reply n, d)) (count_of-present (d.values k) h))

  pub get_text :
      (k : Text) (d : Dataset) (t : Text)
      → d.values k ≡ text t
      → Replies up data_of (redis.get k) d (reply t) d
  get_text k d t h = Serves-Replies d (redis.get_lem k) (ap (λ v. (text_of v, d)) h)

  pub set-Replies :
      (k t : Text) (ttl : Option ℤ) (d : Dataset)
      → Replies up data_of
          (redis.set k t ttl)
          d
          (reply tt)
          (set_deadline k (deadline_in d ttl) (put k (text t) d))
  set-Replies k t ttl d = Serves-Replies d (redis.set_lem k t ttl) refl

  pub del-Replies :
      (k : Text) (d : Dataset) → Replies up data_of (redis.del k) d (reply tt) (delete k d)
  del-Replies k d = Serves-Replies d (redis.del_lem k) refl

  pub expire_at_later :
      (k : Text) (t : ℤ) (d : Dataset)
      → d.values k ≢ absent
      → ltb_ℤ d.clock t ≡ true
      → Replies up data_of (redis.expire_at k t) d (reply tt) (set_deadline k (some t) d)
  expire_at_later k t d h e =
      Serves-Replies d (redis.expire_at_lem k t)
        (ap (λ d'. (reply tt, d')) (expire_value-later k t d (d.values k) h e))

  pub zadd-Replies :
      (k : Text) (x : ℤ) (m : Text) (d : Dataset) (l : List Scored)
      → as_scores (d.values k) ≡ some l
      → Replies up data_of (redis.zadd k x m) d (reply tt) (put k (scores (add_scored m x l)) d)
  zadd-Replies k x m d l h =
      Serves-Replies d (redis.zadd_lem k x m)
        (ap (λ o. on_kind o (λ _. tt) d (λ l. put k (scores (add_scored m x l)) d)) h)

  pub zpopmin-Replies :
      (k : Text) (d : Dataset) (a : Scored) (l : List Scored)
      → d.values k ≡ scores (a ∷ l)
      → Replies up data_of (redis.zpopmin k) d (reply (a ∷ [])) (put_scores k l d)
  zpopmin-Replies k d a l h =
      Serves-Replies d (redis.zpopmin_lem k) (ap (λ v. pop k (as_scores v) d) h)

  pub zrange_all-Replies :
      (k : Text) (d : Dataset) (l : List Scored)
      → as_scores (d.values k) ≡ some l
      → Replies up data_of
          (redis.zrange k (pos 0) (negsuc 0))
          d
          (reply (map (λ (a : Scored). a.member) l))
          d
  zrange_all-Replies k d l h =
      Serves-Replies d (redis.zrange_all k)
        (ap (λ o. on_kind o (map (λ (a : Scored). a.member)) d (λ _. d)) h)

  pub zrange_rev_all-Replies :
      (k : Text) (d : Dataset) (l : List Scored)
      → as_scores (d.values k) ≡ some l
      → Replies up data_of (redis.zrange_rev k (pos 0) (negsuc 0)) d (reply (reverse l)) d
  zrange_rev_all-Replies k d l h =
      Serves-Replies d (redis.zrange_rev_all k) (ap (λ o. on_kind o reverse d (λ _. d)) h)

  pub zrange_rev_two-Replies :
      (k : Text) (d : Dataset) (l : List Scored)
      → as_scores (d.values k) ≡ some l
      → Replies up data_of (redis.zrange_rev k (pos 0) (pos 1)) d (reply (first_two (reverse l))) d
  zrange_rev_two-Replies k d l h =
      Serves-Replies d (redis.zrange_rev_two k)
        (ap (λ o. on_kind o (λ l. first_two (reverse l)) d (λ _. d)) h)

  pub sadd-Replies :
      (k m : Text) (d : Dataset) (l : List Text)
      → as_members (d.values k) ≡ some l
      → Replies up data_of (redis.sadd k m) d (reply tt) (put k (members (add_member m l)) d)
  sadd-Replies k m d l h =
      Serves-Replies d (redis.sadd_lem k m)
        (ap (λ o. on_kind o (λ _. tt) d (λ l. put k (members (add_member m l)) d)) h)

  pub srem-Replies :
      (k m : Text) (d : Dataset) (l : List Text)
      → as_members (d.values k) ≡ some l
      → Replies up data_of (redis.srem k m) d (reply tt) (put_members k (remove_member m l) d)
  srem-Replies k m d l h =
      Serves-Replies d (redis.srem_lem k m)
        (ap (λ o. on_kind o (λ _. tt) d (λ l. put_members k (remove_member m l) d)) h)

  pub smembers-Replies :
      (k : Text) (d : Dataset) (l : List Text)
      → as_members (d.values k) ≡ some l
      → Replies up data_of (redis.smembers k) d (reply (redis.member_order k l)) d
  smembers-Replies k d l h =
      Serves-Replies d (redis.smembers_lem k)
        (ap (λ o. on_kind o (redis.member_order k) d (λ _. d)) h)

  pub keys-Replies :
      (pattern : Text) (d : Dataset)
      → Replies up data_of (redis.keys pattern) d (reply (redis.listing pattern d)) d
  keys-Replies pattern d = Serves-Replies d (redis.keys_lem pattern) refl
