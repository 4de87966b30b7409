-- ===== src/Client/Typing/Commands.antt =====
-- The commands of Redis on a dataset in which each key holds what it may hold: the invariant is kept,
-- and what is known before a reading command is known after it.
use porter_agent.Base.{
  ◌≡◌, Option, List, ℕ, ℤ, ◌==◌, ◌∷◌, false, some, Bool-cases, ◌≢◌, some, arith, ltb_ℤ, inl, [],
  inr, inr, refl, ◌++◌,
}
use porter_agent.Text.{Text}
use porter_agent.Redis.Keyspace.{
  insert_scored, add_scored, add_member, Value, Scored, Dataset, is_member, as_scores, put,
  put_scores, put_members, text, scores, members, absent, before, without_member,
}
use porter_agent.Redis.Commands.{text_of, on_kind, expire_value, pop, count_of}
use porter_agent.Client.Typing.{
  Fits, IsSound, IsScores, kind_of, delete-IsSound, put-IsSound, set_deadline-IsSound,
}
use porter_agent.Redis.Action.{reply}
use mathlib.Core.List.{reverse}
use mathlib.Core.Option.{none}

abbrev pub AllowsScores : Text → Type 0
AllowsScores k = (a : Scored) (l : List Scored) → Fits (kind_of k) k (scores (a ∷ l))

abbrev pub AllowsMembers : Text → Type 0
AllowsMembers k = (m : Text) (l : List Text) → Fits (kind_of k) k (members (m ∷ l))

-- The key `k` is there if the number is not 0.
abbrev pub Counts : Text → ℕ → Dataset → Type 0
Counts k n d = (n == 0) ≡ false → d.values k ≢ absent

-- The list is that of the sorted set at `k`, the last one first.
abbrev pub ListsLast : Text → List Scored → Dataset → Type 0
ListsLast k l d = (s : List Scored) × (as_scores (d.values k) ≡ some s) × (l ≡ reverse s)

pub on_kind_same :
    {A B : Type 0} (o : Option A) (f : A → B) (d : Dataset) → (on_kind o f d (λ _. d)).1 ≡ d
on_kind_same none f d = refl
on_kind_same (some a) f d = refl

pub on_kind-reply :
    {A B : Type 0} (o : Option A) (f : A → B) (d : Dataset) (g : A → Dataset) (b : B)
    → (on_kind o f d g).0 ≡ reply b
    → (a : A) × (o ≡ some a) × (b ≡ f a)
on_kind-reply none f d g b h = absurd (cc h)
on_kind-reply (some a) f d g b h = (a, refl, ground arith)

pub on_kind-IsSound :
    {A B : Type 0} (o : Option A) (f : A → B) (d : Dataset) (g : A → Dataset)
    → IsSound d
    → ((a : A) → o ≡ some a → IsSound (g a))
    → IsSound (on_kind o f d g).1
on_kind-IsSound none f d g s h = s
on_kind-IsSound (some a) f d g s h = h a refl

insert_scored-cons :
    (a : Scored) (l : List Scored) → (b : Scored) × (r : List Scored) × (insert_scored a l ≡ b ∷ r)
unfolding insert_scored
insert_scored-cons a [] = (a, [], refl)
insert_scored-cons a (b ∷ l) = elim (Bool-cases (before a b)) [
  | inl first ↦ (a, b ∷ l, rw first)
  | inr later ↦ (b, insert_scored a l, rw later)
]

pub put_added-IsSound :
    (k : Text) (m : Text) (x : ℤ) (l : List Scored) (d : Dataset)
    → AllowsScores k
    → IsSound d
    → IsSound (put k (scores (add_scored m x l)) d)
unfolding add_scored
put_added-IsSound k m x l d h s =
    let (b, r, e) = insert_scored-cons (record { member = m; score = x }) (without_member m l) in
    put-IsSound k _ d (rw e (h b r)) s

put_scores-IsSound :
    (k : Text) (l : List Scored) (d : Dataset)
    → AllowsScores k
    → IsSound d
    → IsSound (put_scores k l d)
put_scores-IsSound k [] d h s = delete-IsSound k d s
put_scores-IsSound k (a ∷ l) d h s = put-IsSound k _ d (h a l) s

pub put_members-IsSound :
    (k : Text) (l : List Text) (d : Dataset)
    → AllowsMembers k
    → IsSound d
    → IsSound (put_members k l d)
put_members-IsSound k [] d h s = delete-IsSound k d s
put_members-IsSound k (a ∷ l) d h s = put-IsSound k _ d (h a l) s

pub add_member-cons :
    (m : Text) (l : List Text) → (b : Text) × (r : List Text) × (add_member m l ≡ b ∷ r)
unfolding add_member is_member
add_member-cons m [] = (m, [], refl)
add_member-cons m (x ∷ l) = elim (Bool-cases (is_member m (x ∷ l))) [
  | inl old ↦ (x, l, rw old)
  | inr new ↦ (x, l ++ m ∷ [], rw new)
]

pub expire_value-IsSound :
    (k : Text) (t : ℤ) (v : Value) (d : Dataset) → IsSound d → IsSound (expire_value k t v d)
expire_value-IsSound k t absent d s = s
expire_value-IsSound k t (text _) d s = elim (Bool-cases (ltb_ℤ d.clock t)) [
  | inl later ↦ rw later (set_deadline-IsSound k (some t) d s)
  | inr passed ↦ rw passed (delete-IsSound k d s)
]
expire_value-IsSound k t (scores _) d s = elim (Bool-cases (ltb_ℤ d.clock t)) [
  | inl later ↦ rw later (set_deadline-IsSound k (some t) d s)
  | inr passed ↦ rw passed (delete-IsSound k d s)
]
expire_value-IsSound k t (members _) d s = elim (Bool-cases (ltb_ℤ d.clock t)) [
  | inl later ↦ rw later (set_deadline-IsSound k (some t) d s)
  | inr passed ↦ rw passed (delete-IsSound k d s)
]

pub pop-IsSound :
    (k : Text) (o : Option (List Scored)) (d : Dataset)
    → AllowsScores k
    → IsSound d
    → IsSound (pop k o d).1
pop-IsSound k none d h s = s
pop-IsSound k (some []) d h s = s
pop-IsSound k (some (a ∷ l)) d h s = put_scores-IsSound k l d h s

-- A sorted set that is there has a first element.
pub pop-cons :
    (k : Text) (v : Value) (d : Dataset) (l : List Scored)
    → IsScores v
    → v ≢ absent
    → (pop k (as_scores v) d).0 ≡ reply l
    → (a : Scored) × (l ≡ a ∷ [])
pop-cons k absent d l f n h = absurd (n refl)
pop-cons k (text _) d l f n h = elim f [ ]
pop-cons k (scores []) d l f n h = elim f [ ]
pop-cons k (scores (a ∷ r)) d l f n h = (a, ground arith)
pop-cons k (members _) d l f n h = elim f [ ]

pub count_of-absent :
    (v : Value) (n : ℕ) → reply (count_of v) ≡ reply n → (n == 0) ≡ false → v ≢ absent
count_of-absent v n h e a = cc

pub text_of-reply : (v : Value) (t : Text) → text_of v ≡ reply t → v ≡ text t
text_of-reply absent t h = absurd (cc h)
text_of-reply (text s) t h = ground arith
text_of-reply (scores _) t h = absurd (cc h)
text_of-reply (members _) t h = absurd (cc h)
