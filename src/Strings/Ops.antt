-- ===== src/Strings/Ops.antt =====
-- Go's operators on strings, and `strings.Contains`.
use Prim.Native.String
use Prim.Native.String.{String, [], ◌∷◌, compare}
use text.Mathlib.Text.{is_lt}
use the_score.Base.{Bool, ◌||◌, starts_with}

-- Go's `+` on strings.
infixr 65 ◌⧺◌
abbrev pub ◌⧺◌ : String → String → String
s ⧺ t = String.◌++◌ s t

-- Go's `<` on strings: by code points, which is the order of the UTF-8 bytes.
abbrev pub less : String → String → Bool
less s t = is_lt (compare s t)

-- strings.Contains
unfoldable pub contains : String → String → Bool
contains [] sub = starts_with [] sub
contains (c ∷ s) sub = starts_with (c ∷ s) sub || contains s sub
