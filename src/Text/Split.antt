-- ===== src/Text/Split.antt =====
-- `strings.Split` and `strings.Join` at a separator of one byte, and their round trips.
use porter_agent.Base.{
  ℕ, ◌≡◌, refl, ◌≢◌, List, [], ◌∷◌, ◌++◌, arith, ◌==◌, ==_iff, ==-ne, All, Bool-cases, inl, inr,
  ◌∙◌, ap, if◌then◌else◌,
}
use porter_agent.Text.{Text}

prepend : ℕ → List Text → List Text
prepend c [] = (c ∷ []) ∷ []
prepend c (p ∷ parts) = (c ∷ p) ∷ parts

-- strings.Split(s, sep)
unfoldable pub split : Text → ℕ → List Text
unfolding prepend
split [] sep = [] ∷ []
split (c ∷ s) sep = let parts = split s sep in if c == sep then [] ∷ parts else prepend c parts

-- strings.Join(parts, sep)
unfoldable pub join : List Text → ℕ → Text
join [] sep = []
join (p ∷ []) sep = p
join (p ∷ q ∷ parts) sep = let rest = join (q ∷ parts) sep in p ++ (sep ∷ rest)

abbrev pub Lacks : ℕ → Text → Type 0
Lacks sep = All (λ c. c ≢ sep)

module _ (sep : ℕ) where
  split-ne-nil : (s : Text) → split s sep ≢ []
  unfolding split
  split-ne-nil [] h = cc
  split-ne-nil (c ∷ s) h = split-cons (split s sep) h
    where
      split-cons : (parts : List Text) → (if c == sep then [] ∷ parts else prepend c parts) ≡ [] → ⊥
      split-cons [] e = ground arith
      split-cons (p ∷ parts) e = ground arith

  -- A part without the separator, in front of one, is the first part.
  pub split-append : (p s : Text) → Lacks sep p → split (p ++ (sep ∷ s)) sep ≡ p ∷ split s sep
  unfolding split
  split-append [] s h = ground arith
  split-append (c ∷ p) s h = ground (arith, split-append p s h.1)

  pub split_single : (p : Text) → Lacks sep p → split p sep ≡ p ∷ []
  unfolding split
  split_single [] h = refl
  split_single (c ∷ p) h = ground (arith, split_single p h.1)

  join-prepend : (c : ℕ) (parts : List Text) → join (prepend c parts) sep ≡ c ∷ join parts sep
  unfolding join prepend
  join-prepend c [] = refl
  join-prepend c (p ∷ []) = refl
  join-prepend c (p ∷ q ∷ parts) = refl

  join-nil : (parts : List Text) → parts ≢ [] → join ([] ∷ parts) sep ≡ sep ∷ join parts sep
  unfolding join
  join-nil [] h = absurd (h refl)
  join-nil (p ∷ parts) h = refl

  join_step :
      (c : ℕ) (parts : List Text)
      → parts ≢ []
      → join (if c == sep then [] ∷ parts else prepend c parts) sep ≡ c ∷ join parts sep
  join_step c parts n = elim (Bool-cases (c == sep)) [
    | inl same ↦ rw (same, join-nil parts n, (==_iff c sep).0 same)
    | inr other ↦ rw (other, join-prepend c parts)
  ]

  -- Joining what a text was split into gives the text.
  pub join-split : (s : Text) → join (split s sep) sep ≡ s
  unfolding split
  join-split [] = unfold join in refl
  join-split (c ∷ s) = join_step c (split s sep) (split-ne-nil s) ∙ ap (λ r. c ∷ r) (join-split s)

  Lacks-step :
      (c : ℕ) (parts : List Text)
      → All (Lacks sep) parts
      → All (Lacks sep) (if c == sep then [] ∷ parts else prepend c parts)
  unfolding prepend
  Lacks-step c parts h = elim (Bool-cases (c == sep)) [
    | inl same ↦ rw same (tt, h)
    | inr other ↦ rw other (lacks-prepend (==-ne c sep other) parts h)
  ]
    where
      lacks-prepend :
          c ≢ sep → (parts : List Text) → All (Lacks sep) parts → All (Lacks sep) (prepend c parts)
      lacks-prepend n [] h = ((n, tt), tt)
      lacks-prepend n (p ∷ parts) h = ((n, h.0), h.1)

  -- No part of a split holds the separator.
  pub split-Lacks : (s : Text) → All (Lacks sep) (split s sep)
  unfolding split
  split-Lacks [] = omega arith
  split-Lacks (c ∷ s) = Lacks-step c (split s sep) (split-Lacks s)
