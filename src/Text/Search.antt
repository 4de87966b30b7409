-- ===== src/Text/Search.antt =====
-- Prefixes and substrings.
use porter_agent.Base.{ℕ, ◌≡◌, refl, true, [], ◌∷◌, ◌++◌, arith}
use porter_agent.Text.{Text, has_prefix, trim_prefix, contains}

pub has_prefix-append : (p s : Text) → has_prefix (p ++ s) p ≡ true
unfolding has_prefix
has_prefix-append [] s = refl
has_prefix-append (a ∷ p) s = ground (arith, has_prefix-append p s)

pub drop_prefix : (s p : Text) → has_prefix s p ≡ true → p ++ trim_prefix s p ≡ s
unfolding trim_prefix
drop_prefix s [] h = refl
drop_prefix [] (b ∷ p) h = cc
drop_prefix (a ∷ s) (b ∷ p) h = ground (arith, drop_prefix s p)

pub trim_prefix-append : (p s : Text) → trim_prefix (p ++ s) p ≡ s
unfolding trim_prefix
trim_prefix-append [] s = refl
trim_prefix-append (a ∷ p) s = ground (arith, trim_prefix-append p s, has_prefix-append p s)

pub contains-prefix : (s needle : Text) → has_prefix s needle ≡ true → contains s needle ≡ true
unfolding contains
contains-prefix [] needle h = h
contains-prefix (a ∷ s) needle h = ground arith

contains-cons :
    (a : ℕ) (s needle : Text) → contains s needle ≡ true → contains (a ∷ s) needle ≡ true
unfolding contains
contains-cons a s needle h = ground arith

-- A needle in the middle of a text is found.
pub contains-append : (p needle s : Text) → contains (p ++ (needle ++ s)) needle ≡ true
contains-append [] needle s = contains-prefix (needle ++ s) needle (has_prefix-append needle s)
contains-append (a ∷ p) needle s =
    contains-cons a (p ++ (needle ++ s)) needle (contains-append p needle s)

nil_prefix : (s : Text) → has_prefix s [] ≡ true
unfolding has_prefix
nil_prefix [] = refl
nil_prefix (a ∷ s) = refl

pub has_prefix-append_left : (s p q : Text) → has_prefix s (p ++ q) ≡ true → has_prefix s p ≡ true
unfolding has_prefix
has_prefix-append_left s [] q h = nil_prefix s
has_prefix-append_left [] (b ∷ p) q h = h
has_prefix-append_left (a ∷ s) (b ∷ p) q h = ground (arith, has_prefix-append_left s p q)
