-- ===== src/Redis/Keyspace.antt =====
-- What the documentation of Redis says of the keys that the agent uses, and of the effects of the
-- commands on them. This is the vocabulary in which the hypotheses on the server are stated.
use porter_agent.Base.{
  ℤ, Bool, true, false, ◌||◌, ◌&&◌, ◌==◌, ltb, ltb_ℤ, List, [], ◌∷◌, ◌++◌, Option, none, some,
  if◌then◌else◌, ◌≡◌, refl, ◌≢◌,
}
use porter_agent.Text.{Text, eq_text}
use mathlib.Core.Path.{fun_ext}
use porter_agent.Text.Equality.{eq_text_refl}

pub record Scored : Type 0 where
  pub member : Text
  pub score : ℤ

-- A string, a sorted set in ascending order, or a set; an empty set is an absent key.
pub data Value : Type 0 where
  absent : Value
  text : Text → Value
  scores : List Scored → Value
  members : List Text → Value

-- The keys, when each of them expires (in Unix seconds), and the server's clock.
pub record Dataset : Type 0 where
  pub values : Text → Value
  pub deadlines : Text → Option ℤ
  pub clock : ℤ

abbrev pub update {ℓ} : {A : Type ℓ} → Text → A → (Text → A) → Text → A
update k a f j = if eq_text k j then a else f j

-- Writes that keep the deadline of the key.
abbrev pub put : Text → Value → Dataset → Dataset
put k v d = record d { values = update k v d.values }

abbrev pub set_deadline : Text → Option ℤ → Dataset → Dataset
set_deadline k t d = record d { deadlines = update k t d.deadlines }

-- DEL; it is no error if the key is absent.
abbrev pub delete : Text → Dataset → Dataset
delete k d = set_deadline k none (put k absent d)

-- The lexicographical order of bytes, which orders members of one score.
unfoldable pub ltb_text : Text → Text → Bool
ltb_text [] [] = false
ltb_text [] (b ∷ t) = true
ltb_text (a ∷ s) [] = false
ltb_text (a ∷ s) (b ∷ t) = ltb a b || ((a == b) && ltb_text s t)

unfoldable pub before : Scored → Scored → Bool
unfolding ltb_text
before a b =
    ltb_ℤ a.score b.score
    || ((if ltb_ℤ b.score a.score then false else true) && ltb_text a.member b.member)

unfoldable pub without_member : Text → List Scored → List Scored
without_member m [] = []
without_member m (a ∷ l) =
    let rest = without_member m l in if eq_text a.member m then rest else a ∷ rest

unfoldable pub insert_scored : Scored → List Scored → List Scored
unfolding before
insert_scored a [] = a ∷ []
insert_scored a (b ∷ l) = let rest = insert_scored a l in if before a b then a ∷ b ∷ l else b ∷ rest

-- ZADD: a member that is there gets the new score.
unfoldable pub add_scored : Text → ℤ → List Scored → List Scored
unfolding insert_scored without_member
add_scored m x l = insert_scored (record { member = m; score = x }) (without_member m l)

unfoldable pub is_member : Text → List Text → Bool
is_member m [] = false
is_member m (x ∷ l) = eq_text x m || is_member m l

-- SADD
unfoldable pub add_member : Text → List Text → List Text
unfolding is_member
add_member m l = if is_member m l then l else l ++ m ∷ []

-- SREM
unfoldable pub remove_member : Text → List Text → List Text
remove_member m [] = []
remove_member m (x ∷ l) = let rest = remove_member m l in if eq_text x m then rest else x ∷ rest

-- What the commands on sorted sets see of a key; `none` is the error WRONGTYPE.
abbrev pub as_scores : Value → Option (List Scored)
as_scores absent = some []
as_scores (scores l) = some l
as_scores _ = none

abbrev pub as_members : Value → Option (List Text)
as_members absent = some []
as_members (members l) = some l
as_members _ = none

-- A set that has become empty is deleted.
abbrev pub put_members : Text → List Text → Dataset → Dataset
put_members k [] d = delete k d
put_members k (m ∷ l) d = put k (members (m ∷ l)) d

abbrev pub put_scores : Text → List Scored → Dataset → Dataset
put_scores k [] d = delete k d
put_scores k (m ∷ l) d = put k (scores (m ∷ l)) d

pub update-update {ℓ} :
    {A : Type ℓ} (k : Text) (a : A) (f : Text → A) → update k a (update k a f) ≡ update k a f
update-update {A} k a f = fun_ext λ j. twice (eq_text k j) (f j)
  where
    twice : (b : Bool) (y : A) → (if b then a else (if b then a else y)) ≡ (if b then a else y)
    twice true y = refl
    twice false y = refl

pub as_members-put_members :
    (k : Text) (l : List Text) (d : Dataset) → as_members ((put_members k l d).values k) ≡ some l
as_members-put_members k [] d = rw (eq_text_refl k)
as_members-put_members k (m ∷ l) d = rw (eq_text_refl k)

pub text-ne-absent : {v : Value} {t : Text} → v ≡ text t → v ≢ absent
text-ne-absent h e = cc

pub scores-ne-absent : {v : Value} {l : List Scored} → v ≡ scores l → v ≢ absent
scores-ne-absent h e = cc

pub as_scores-put_scores :
    (k : Text) (l : List Scored) (d : Dataset) → as_scores ((put_scores k l d).values k) ≡ some l
as_scores-put_scores k [] d = rw (eq_text_refl k)
as_scores-put_scores k (m ∷ l) d = rw (eq_text_refl k)

pub put-ne-absent :
    (k : Text) (v : Value) (d : Dataset) → v ≢ absent → (put k v d).values k ≢ absent
put-ne-absent k v d h = rw (eq_text_refl k) h

pub members-ne-absent : (l : List Text) → members l ≢ absent
members-ne-absent l e = cc

pub put_scores-other :
    (k : Text) (l : List Scored) (d : Dataset) (j : Text)
    → eq_text k j ≡ false
    → (put_scores k l d).values j ≡ d.values j
put_scores-other k [] d j h = rw h
put_scores-other k (a ∷ l) d j h = rw h
