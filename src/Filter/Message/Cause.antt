-- ===== src/Filter/Message/Cause.antt =====
-- The cause in the message of the container runtime is found, and other messages are left alone.
use mathlib.Core.List.{append-nil}
use porter_agent.Base.{
  Bool, false, not, ◌&&◌, [], ◌∷◌, ◌++◌, none, some, ◌≡◌, refl, append-nil, subst,
}
use porter_agent.Text.{Text, codes, has_prefix}
use porter_agent.Filter.Message.{needle, find_cause, get_filtered_message, has_newline}
use porter_agent.Text.Search.{trim_prefix-append}

-- The text is a match: the needle stands at its beginning, and it holds no newline.
abbrev pub is_match : Text → Bool
is_match s = has_prefix s needle && not (has_newline s)

-- No match begins in the first text, which `t` follows.
abbrev pub Passes : Text → Text → Type 0
Passes [] t = Unit
Passes (c ∷ p) t = (is_match (c ∷ (p ++ t)) ≡ false) × Passes p t

abbrev pub cause_text : Text → Text
cause_text why = codes "starting container process caused: " ++ why

find_here :
    (why : Text) → has_newline why ≡ false → find_cause (cause_text why) ≡ some (cause_text why)
unfolding find_cause has_newline has_prefix
find_here why h = rw h

find_later : (p t : Text) → Passes p t → find_cause t ≡ some t → find_cause (p ++ t) ≡ some t
unfolding find_cause
find_later [] t h e = e
find_later (c ∷ p) t h e = rw (h.0, find_later p t h.1 e)

find_none : (message : Text) → Passes message [] → find_cause message ≡ none
unfolding find_cause
find_none [] h = refl
find_none (c ∷ p) h =
    let first : is_match (c ∷ p) ≡ false =
      subst (λ q. is_match (c ∷ q) ≡ false) (append-nil p) h.0 in
    rw (first, find_none p h.1)

-- If a message holds the text "starting container process caused: " and no newline after it, and no match
-- begins before it, what is reported is the rest of the message behind that text. A message in which no
-- match begins is reported as it is.
pub get_filtered_message-cause_text :
    (before why message : Text)
    → Passes before (cause_text why)
    → has_newline why ≡ false
    → Passes message []
    → (get_filtered_message (before ++ cause_text why) ≡ why)
      × (get_filtered_message message ≡ message)
unfolding get_filtered_message
get_filtered_message-cause_text before why message passes no_newline nowhere = (
  rw (
    find_later before (cause_text why) passes (find_here why no_newline),
    trim_prefix-append (codes "starting container process caused: ") why,
  ),
  rw (find_none message nowhere),
)
