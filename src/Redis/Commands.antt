-- ===== src/Redis/Commands.antt =====
-- The commands of Redis that the agent uses, as their documentation describes them: the reply and the
-- next dataset as functions of the dataset.
use porter_agent.Base.{ℕ, ℤ, List, [], ◌∷◌, Option, none, some, ltb_ℤ, if◌then◌else◌, ◌+ℤ◌}
use mathlib.Core.List.{reverse, map}
use porter_agent.Text.{Text, codes}
use porter_agent.Result.{Error, fail}
use porter_agent.Redis.Keyspace.{
  Dataset, Scored, Value, absent, text, scores, members, put, set_deadline, delete, add_scored,
  add_member, remove_member, as_scores, as_members, put_members, put_scores,
}
use porter_agent.Redis.Action.{Reply, Call, reply, failed}

abbrev wrong_type : Error
wrong_type = fail (codes "WRONGTYPE Operation against a key holding the wrong kind of value")

-- The documented error of GET at a key that is absent.
abbrev pub nil_error : Error
nil_error = fail (codes "redis: nil")

abbrev pub first_two {ℓ} : {A : Type ℓ} → List A → List A
first_two [] = []
first_two (a ∷ []) = a ∷ []
first_two (a ∷ b ∷ l) = a ∷ b ∷ []

abbrev pub deadline_in : Dataset → Option ℤ → Option ℤ
deadline_in d none = none
deadline_in d (some seconds) = some (d.clock +ℤ seconds)

abbrev pub count_of : Value → ℕ
count_of absent = 0
count_of _ = 1

abbrev pub exists : Text → Call Dataset ℕ
exists k d = (reply (count_of (d.values k)), d)

abbrev pub text_of : Value → Reply Text
text_of absent = failed nil_error
text_of (text t) = reply t
text_of _ = failed wrong_type

abbrev pub get : Text → Call Dataset Text
get k d = (text_of (d.values k), d)

abbrev pub set : Text → Text → Option ℤ → Call Dataset (Unit {0})
set k t ttl d = (reply tt, set_deadline k (deadline_in d ttl) (put k (text t) d))

abbrev pub del : Text → Call Dataset (Unit {0})
del k d = (reply tt, delete k d)

-- A deadline that has passed deletes the key.
abbrev pub expire_value : Text → ℤ → Value → Dataset → Dataset
expire_value k t absent d = d
expire_value k t _ d = if ltb_ℤ d.clock t then set_deadline k (some t) d else delete k d

abbrev pub expire_at : Text → ℤ → Call Dataset (Unit {0})
expire_at k t d = (reply tt, expire_value k t (d.values k) d)

-- A command on a collection: an error if the key is of another kind.
abbrev pub on_kind :
    {A B : Type 0} → Option A → (A → B) → Dataset → (A → Dataset) → Reply B × Dataset
on_kind none f d g = (failed wrong_type, d)
on_kind (some a) f d g = (reply (f a), g a)

abbrev pub zadd : Text → ℤ → Text → Call Dataset (Unit {0})
zadd k x m d =
    on_kind (as_scores (d.values k)) (λ _. tt) d (λ l. put k (scores (add_scored m x l)) d)

abbrev pub pop : Text → Option (List Scored) → Dataset → Reply (List Scored) × Dataset
pop k none d = (failed wrong_type, d)
pop k (some []) d = (reply [], d)
pop k (some (a ∷ l)) d = (reply (a ∷ []), put_scores k l d)

abbrev pub zpopmin : Text → Call Dataset (List Scored)
zpopmin k d = pop k (as_scores (d.values k)) d

-- ZRANGE 0 -1
abbrev pub zrange_all : Text → Call Dataset (List Text)
zrange_all k d = on_kind (as_scores (d.values k)) (map (λ (a : Scored). a.member)) d (λ _. d)

-- ZRANGE 0 -1 REV WITHSCORES, and ZRANGE 0 1 REV WITHSCORES
abbrev pub zrange_rev_all : Text → Call Dataset (List Scored)
zrange_rev_all k d = on_kind (as_scores (d.values k)) reverse d (λ _. d)

abbrev pub zrange_rev_two : Text → Call Dataset (List Scored)
zrange_rev_two k d = on_kind (as_scores (d.values k)) (λ l. first_two (reverse l)) d (λ _. d)

abbrev pub sadd : Text → Text → Call Dataset (Unit {0})
sadd k m d = on_kind (as_members (d.values k)) (λ _. tt) d (λ l. put k (members (add_member m l)) d)

abbrev pub srem : Text → Text → Call Dataset (Unit {0})
srem k m d =
    on_kind (as_members (d.values k)) (λ _. tt) d (λ l. put_members k (remove_member m l) d)

-- The order of the members is not specified.
abbrev pub smembers : (Text → List Text → List Text) → Text → Call Dataset (List Text)
smembers order k d = on_kind (as_members (d.values k)) (order k) d (λ _. d)

-- KEYS, with the list of keys that the server finds.
abbrev pub keys : (Text → Dataset → List Text) → Text → Call Dataset (List Text)
keys listing pattern d = (reply (listing pattern d), d)
