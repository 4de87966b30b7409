-- ===== src/Filter/Message.antt =====
-- `getFilteredMessage` of `pkg/utils/filter.go`. The pattern "starting container process caused:.*$"
-- matches where the needle stands and no newline follows, and the leftmost match reaches to the end.
pub mod Cause
use porter_agent.Base.{
  Bool, false, not, ◌&&◌, ◌||◌, [], ◌∷◌, Option, none, some, ◌==◌, if◌then◌else◌,
}
use porter_agent.Text.{Text, codes, newline, has_prefix, trim_prefix}

abbrev pub needle : Text
needle = codes "starting container process caused:"

unfoldable pub has_newline : Text → Bool
has_newline [] = false
has_newline (c ∷ s) = (c == newline) || has_newline s

-- regex.FindStringSubmatch(message), the first entry.
unfoldable pub find_cause : Text → Option Text
unfolding has_newline
find_cause [] = none
find_cause (c ∷ s) =
    let later = find_cause s in
    if has_prefix (c ∷ s) needle && not (has_newline (c ∷ s)) then some (c ∷ s) else later

abbrev cause_of : Text → Option Text → Text
cause_of message none = message
cause_of message (some match) = trim_prefix match (codes "starting container process caused: ")

unfoldable pub get_filtered_message : Text → Text
unfolding find_cause
get_filtered_message message = cause_of message (find_cause message)
