-- ===== src/Text.antt =====
-- Go's strings as lists of bytes, with the operations of package `strings` that the program calls.
pub mod Equality
pub mod Search
pub mod Split
pub mod Decimal
use Prim.Native.Char.{code}
use porter_agent.Base.{
  ℕ, String, Bool, true, false, ◌&&◌, ◌||◌, List, [], ◌∷◌, ◌++◌, ◌==◌, if◌then◌else◌,
}

abbrev pub Text : Type 0
Text = List ℕ

-- The bytes of a literal, which is ASCII throughout the program.
abbrev pub codes : String → Text
codes String.[] = []
codes (String.◌∷◌ c s) = code c ∷ codes s

abbrev pub colon : ℕ
colon = b':'

abbrev pub newline : ℕ
newline = 10

-- a == b
unfoldable pub eq_text : Text → Text → Bool
eq_text [] [] = true
eq_text (a ∷ s) (b ∷ t) = (a == b) && eq_text s t
eq_text _ _ = false

-- strings.HasPrefix(s, prefix)
unfoldable pub has_prefix : Text → Text → Bool
has_prefix s [] = true
has_prefix [] (b ∷ prefix) = false
has_prefix (a ∷ s) (b ∷ prefix) = (a == b) && has_prefix s prefix

abbrev drop_bytes : Text → Text → Text
drop_bytes s [] = s
drop_bytes [] (b ∷ prefix) = []
drop_bytes (a ∷ s) (b ∷ prefix) = drop_bytes s prefix

-- strings.TrimPrefix(s, prefix)
unfoldable pub trim_prefix : Text → Text → Text
unfolding has_prefix
trim_prefix s prefix = if has_prefix s prefix then drop_bytes s prefix else s

-- strings.Contains(s, needle)
unfoldable pub contains : Text → Text → Bool
unfolding has_prefix
contains [] needle = has_prefix [] needle
contains (a ∷ s) needle = has_prefix (a ∷ s) needle || contains s needle
