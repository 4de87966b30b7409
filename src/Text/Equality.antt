-- ===== src/Text/Equality.antt =====
-- Equality of texts decides equality.
use porter_agent.Base.{◌≡◌, refl, ◌↔◌, true, [], ◌∷◌, ◌++◌, arith}
use porter_agent.Text.{Text, eq_text}

eq_of_eq_text : (s t : Text) → eq_text s t ≡ true → s ≡ t
unfolding eq_text
eq_of_eq_text [] [] h = refl
eq_of_eq_text [] (b ∷ t) h = cc
eq_of_eq_text (a ∷ s) [] h = cc
eq_of_eq_text (a ∷ s) (b ∷ t) h = ground (arith, eq_of_eq_text s t)

pub eq_text_refl : (s : Text) → eq_text s s ≡ true
unfolding eq_text
eq_text_refl [] = refl
eq_text_refl (a ∷ s) = ground (arith, eq_text_refl s)

pub eq_text_iff : (s t : Text) → (eq_text s t ≡ true) ↔ (s ≡ t)
eq_text_iff s t = (eq_of_eq_text s t, λ p. rw p (eq_text_refl t))

pub eq_text-append : (p s t : Text) → eq_text (p ++ s) (p ++ t) ≡ eq_text s t
unfolding eq_text
eq_text-append [] s t = refl
eq_text-append (a ∷ p) s t = ground (arith, eq_text-append p s t)
