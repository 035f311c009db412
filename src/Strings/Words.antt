-- ===== src/Strings/Words.antt =====
-- Taking texts apart: `TrimSpace`, `Trim`, `TrimSuffix`, `Fields`, `Split`, `Join`, `ToLower` of
-- package strings, and `Base` of package path/filepath on Unix.
pub mod Laws
pub mod Lines
use Prim.Native.Char.{Char, code}
use Prim.Native.String.{String, [], ◌∷◌}
use the_score.Base.{ℕ, Bool, true, false, ◌&&◌, ◌||◌, List, ◌==◌, if◌then◌else◌, eqb, leb}
use the_score.Strings.Ops.{◌⧺◌}

-- unicode.IsSpace
unfoldable pub is_space : Char → Bool
is_space c =
    let n = code c in
    (leb 9 n && leb n 13)
    || eqb n 32
    || eqb n 0x85
    || eqb n 0xa0
    || eqb n 0x1680
    || (leb 0x2000 n && leb n 0x200a)
    || eqb n 0x2028
    || eqb n 0x2029
    || eqb n 0x202f
    || eqb n 0x205f
    || eqb n 0x3000

trim_left : (Char → Bool) → String → String
trim_left cut [] = []
trim_left cut (c ∷ s) = let rest = trim_left cut s in if cut c then rest else c ∷ s

trim_right : (Char → Bool) → String → String
trim_right cut [] = []
trim_right cut (c ∷ s) = let rest = trim_right cut s in if cut c && rest == "" then "" else c ∷ rest

-- strings.TrimFunc
unfoldable pub trim : (Char → Bool) → String → String
unfolding trim_left trim_right
trim cut s = trim_right cut (trim_left cut s)

unfoldable pub trim_space : String → String
unfolding trim is_space
trim_space s = trim is_space s

-- strings.TrimSuffix, for a suffix that is not empty
unfoldable pub trim_suffix : String → String → String
trim_suffix suffix [] = []
trim_suffix suffix (c ∷ s) =
    let rest = trim_suffix suffix s in if (c ∷ s) == suffix then "" else c ∷ rest

-- strings.Fields; `word` is the word that is being read.
fields_from : String → String → List String
unfolding is_space
fields_from word [] = if word == "" then List.[] else List.◌∷◌ word List.[]
fields_from word (c ∷ s) = elim (is_space c) [
  | true ↦ let rest = fields_from "" s in if word == "" then rest else List.◌∷◌ word rest
  | false ↦ fields_from (word ⧺ (c ∷ [])) s
]

unfoldable pub fields : String → List String
unfolding fields_from
fields s = fields_from "" s

-- strings.Split at one character; `part` is the part that is being read.
split_from : ℕ → String → String → List String
split_from sep part [] = List.◌∷◌ part List.[]
split_from sep part (c ∷ s) = elim (eqb (code c) sep) [
  | true ↦ List.◌∷◌ part (split_from sep "" s)
  | false ↦ split_from sep (part ⧺ (c ∷ [])) s
]

unfoldable pub split : ℕ → String → List String
unfolding split_from
split sep s = split_from sep "" s

-- strings.Join
unfoldable pub join : String → List String → String
join sep List.[] = ""
join sep (List.◌∷◌ part List.[]) = part
join sep (List.◌∷◌ part (List.◌∷◌ next parts)) = part ⧺ sep ⧺ join sep (List.◌∷◌ next parts)

-- strings.ToLower, by the mapping of one character
unfoldable pub to_lower : (Char → Char) → String → String
to_lower lower [] = []
to_lower lower (c ∷ s) = lower c ∷ to_lower lower s

abbrev is_slash : Char → Bool
is_slash c = eqb (code c) b'/'

after_last_slash : String → String → String
after_last_slash part [] = part
after_last_slash part (c ∷ s) = after_last_slash (if is_slash c then "" else part ⧺ (c ∷ [])) s

-- filepath.Base on Unix
unfoldable pub base : String → String
unfolding trim_right after_last_slash
base path =
    let part = after_last_slash "" (trim_right is_slash path) in
    if path == "" then "." else if part == "" then "/" else part
