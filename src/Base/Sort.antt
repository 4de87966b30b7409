-- ===== src/Base/Sort.antt =====
-- Stable sorting (`sort.SliceStable`), whose result does not depend on the algorithm: `first a b` says
-- that `a` goes before `b`.
use porter_agent.Base.Tests.{if◌then◌else◌}
use mathlib.Core.Path.{◌≡◌, refl}
use mathlib.Core.Bool.{Bool, true, false}
use mathlib.Core.List.{List, [], ◌∷◌, Perm}
use mathlib.Core.List.Perm

module _ {ℓ} {A : Type ℓ} (first : A → A → Bool) where
  -- In front of the first entry that `b` does not have to follow.
  pub insert_by : A → List A → List A
  insert_by a [] = a ∷ []
  insert_by a (b ∷ l) = let rest = insert_by a l in if first b a then b ∷ rest else a ∷ b ∷ l

  unfoldable pub sort_by : List A → List A
  unfolding insert_by
  sort_by [] = []
  sort_by (a ∷ l) = insert_by a (sort_by l)

  pub insert_by-before :
      (a b : A) (l : List A) → first b a ≡ true → insert_by a (b ∷ l) ≡ b ∷ insert_by a l
  unfolding insert_by
  insert_by-before a b l h = rw h

  pub insert_by-after : (a b : A) (l : List A) → first b a ≡ false → insert_by a (b ∷ l) ≡ a ∷ b ∷ l
  unfolding insert_by
  insert_by-after a b l h = rw h

  pub insert_by-nil : (a : A) → insert_by a [] ≡ a ∷ []
  unfolding insert_by
  insert_by-nil a = refl

  insert_by-perm : (a : A) (l : List A) → Perm (insert_by a l) (a ∷ l)
  unfolding insert_by
  insert_by-perm a [] = Perm.refl _
  insert_by-perm a (b ∷ l) = by_test (first b a) (insert_by-perm a l)
    where
      by_test :
          (c : Bool)
          → Perm (insert_by a l) (a ∷ l)
          → Perm (if c then b ∷ insert_by a l else a ∷ b ∷ l) (a ∷ b ∷ l)
      by_test true p = Perm.trans (Perm.cons b p) (Perm.swap a b l)
      by_test false p = Perm.refl _

  pub sort_by-perm : (l : List A) → Perm (sort_by l) l
  unfolding sort_by
  sort_by-perm [] = Perm.refl []
  sort_by-perm (a ∷ l) = Perm.trans (insert_by-perm a (sort_by l)) (Perm.cons a (sort_by-perm l))
