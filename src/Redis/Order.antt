-- ===== src/Redis/Order.antt =====
-- Sorted sets: a member with a score above all others is the last one, and the least member that is
-- taken and put back is where it was.
use porter_agent.Base.{ℤ, ◌≡◌, refl, List, [], ◌∷◌, ◌++◌, All, true, false, arith, ltb_ℤ}
use porter_agent.Text.{Text, eq_text}
use porter_agent.Redis.Keyspace.{Scored, without_member, insert_scored, before, add_scored}

-- Every score in the set is less than `x`.
abbrev pub AllBelow : ℤ → List Scored → Type 0
AllBelow x = All (λ (a : Scored). ltb_ℤ a.score x ≡ true)

abbrev pub LacksMember : Text → List Scored → Type 0
LacksMember m = All (λ (a : Scored). eq_text a.member m ≡ false)

AllBelow-without :
    (x : ℤ) (m : Text) (l : List Scored) → AllBelow x l → AllBelow x (without_member m l)
unfolding without_member
AllBelow-without x m [] h = tt
AllBelow-without x m (a ∷ l) h = ground (arith, AllBelow-without x m l h.1)

insert_scored_last :
    (a : Scored) (l : List Scored) → AllBelow a.score l → insert_scored a l ≡ l ++ a ∷ []
unfolding insert_scored before
insert_scored_last a [] h = refl
insert_scored_last a (b ∷ l) h = ground (arith, insert_scored_last a l h.1)

-- A new score above all others puts its member at the end.
pub add_scored_last :
    (m : Text) (x : ℤ) (l : List Scored)
    → AllBelow x l
    → add_scored m x l ≡ without_member m l ++ record { member = m; score = x } ∷ []
unfolding add_scored
add_scored_last m x l h =
    insert_scored_last (record { member = m; score = x }) (without_member m l)
      (AllBelow-without x m l h)

without_member-Lacks : (m : Text) (l : List Scored) → LacksMember m l → without_member m l ≡ l
unfolding without_member
without_member-Lacks m [] h = refl
without_member-Lacks m (a ∷ l) h = ground (arith, without_member-Lacks m l h.1)

-- The head of a sorted set: it comes before the others, and none of them has its member.
abbrev pub IsLeast : Scored → List Scored → Type 0
IsLeast a = All (λ (b : Scored). (before a b ≡ true) × (eq_text b.member a.member ≡ false))

IsLeast-LacksMember : (a : Scored) (l : List Scored) → IsLeast a l → LacksMember a.member l
IsLeast-LacksMember a [] h = tt
IsLeast-LacksMember a (b ∷ l) h = (h.0.1, IsLeast-LacksMember a l h.1)

insert_scored_first : (a : Scored) (l : List Scored) → IsLeast a l → insert_scored a l ≡ a ∷ l
unfolding insert_scored
insert_scored_first a [] h = refl
insert_scored_first a (b ∷ l) h = rw (h.0.0)

-- A least member that is added with its old score comes back to the front.
pub add_scored_first :
    (a : Scored) (l : List Scored) → IsLeast a l → add_scored a.member a.score l ≡ a ∷ l
unfolding add_scored
add_scored_first a l h =
    rw (without_member-Lacks a.member l (IsLeast-LacksMember a l h)) (insert_scored_first a l h)
