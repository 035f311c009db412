-- ===== src/Cli/Flags.antt =====
-- `Parse` of package flag, as the commands of cmd/score use it: each has a set of flags that exits on
-- an error.
use Prim.Native.Char.{Char, code}
use Prim.Native.String.{[], ◌∷◌}
use the_score.Base.{
  Bool, true, false, ◌||◌, String, List, Option, none, some, ◌==◌, if◌then◌else◌, eqb, is_some, ℤ,
  pos,
}
use the_score.Base.Table.{Table, get, put}
use the_score.Strings.{◌⧺◌}
use the_score.Cli.{Prog, returned, exited}

-- fs.Bool, fs.String and fs.Int64
pub data Kind : Type 0 where
  boolean text number : Kind

-- The flags that were set, as texts, and the arguments behind them.
pub record Parsed : Type 0 where
  pub values : Table String
  pub rest : List String

-- How `Parse` ends: well, with `ErrHelp`, or with an error.
pub data Parsing : Type 0 where
  parsed : Parsed → Parsing
  help : Parsing
  bad : String → Parsing

-- An argument: no flag, `--`, a flag that is not well formed, or a name with the text behind `=`.
pub data Argument : Type 0 where
  plain terminator ill_formed : Argument
  named : String → Option String → Argument

abbrev is_dash : Char → Bool
is_dash c = eqb (code c) b'-'

abbrev is_equals : Char → Bool
is_equals c = eqb (code c) b'='

-- The name, and the text behind the first `=`.
cut_equals : String → String → Argument
cut_equals name [] = named name none
cut_equals name (c ∷ s) =
    if is_equals c then named name (some s) else cut_equals (name ⧺ (c ∷ [])) s

after_dashes : String → Argument
unfolding cut_equals
after_dashes [] = ill_formed
after_dashes (c ∷ s) = if is_dash c || is_equals c then ill_formed else cut_equals (c ∷ []) s

pub classify : String → Argument
unfolding after_dashes
classify [] = plain
classify (c ∷ []) = plain
classify (c ∷ d ∷ s) =
    if is_dash c
    then (if is_dash d
        then (if s == "" then terminator else after_dashes s)
        else after_dashes (d ∷ s))
    else plain

-- strconv.ParseBool
pub parse_bool : String → Option Bool
parse_bool value =
    if value == "1"
      || value == "t"
      || value == "T"
      || value == "true"
      || value == "TRUE"
      || value == "True"
    then some true
    else if value == "0"
        || value == "f"
        || value == "F"
        || value == "false"
        || value == "FALSE"
        || value == "False"
    then some false
    else none

-- The text that the value of a boolean flag is kept as.
abbrev pub shown_bool : Bool → String
shown_bool true = "true"
shown_bool false = "false"

-- What `Set` keeps of a text; `parse_int` is `strconv.ParseInt(text, 0, 64)`.
set_text : (String → Option ℤ) → Kind → String → Option String
unfolding parse_bool
set_text parse_int boolean value = elim (parse_bool value) [
  | none ↦ none
  | some b ↦ some (shown_bool b)
]
set_text parse_int text value = some value
set_text parse_int number value = if is_some (parse_int value) then some value else none

-- The next step of the loop: it sets a flag, waits for the value of one, or ends.
pub data Next : Type 0 where
  sets : (name value : String) → Next
  waits : (name : String) → Next
  ends : Parsing → Next

set_flag : (String → Option ℤ) → Kind → String → String → Next
unfolding set_text
set_flag parse_int kind name value = elim (set_text parse_int kind value) [
  | none ↦ ends (bad ("invalid value for flag -" ⧺ name))
  | some kept ↦ sets name kept
]

-- A flag with the text behind its `=`, if there is one.
on_flag : (String → Option ℤ) → String → Option String → Option Kind → Next
unfolding set_flag
on_flag parse_int name value none = ends (
    if name == "help" || name == "h" then help else bad ("flag provided but not defined: -" ⧺ name))
on_flag parse_int name none (some boolean) = sets name "true"
on_flag parse_int name none (some kind) = waits name
on_flag parse_int name (some value) (some kind) = set_flag parse_int kind name value

abbrev kind_of : Option Kind → Kind
kind_of none = text
kind_of (some kind) = kind

on_argument : (String → Option ℤ) → Table Kind → String → List String → Table String → Next
unfolding on_flag
on_argument parse_int kinds arg rest values = elim (classify arg) [
  | plain ↦ ends (parsed (record { values = values; rest = List.◌∷◌ arg rest }))
  | terminator ↦ ends (parsed (record { values = values; rest = rest }))
  | ill_formed ↦ ends (bad ("bad flag syntax: " ⧺ arg))
  | named name value ↦ on_flag parse_int name value (get name kinds)
]

-- The loop, while a flag waits for its value or none does.
parse_from : (String → Option ℤ) → Table Kind → List String → Option String → Table String → Parsing
unfolding on_argument set_flag
parse_from parse_int kinds List.[] none values = parsed (record { values = values; rest = List.[] })
parse_from parse_int kinds List.[] (some name) values = bad ("flag needs an argument: -" ⧺ name)
parse_from parse_int kinds (List.◌∷◌ value rest) (some name) values =
    elim (set_flag parse_int (kind_of (get name kinds)) name value) [
      | sets name kept ↦ parse_from parse_int kinds rest none (put name kept values)
      | waits name ↦ parse_from parse_int kinds rest none values
      | ends result ↦ result
    ]
parse_from parse_int kinds (List.◌∷◌ arg rest) none values =
    elim (on_argument parse_int kinds arg rest values) [
      | sets name kept ↦ parse_from parse_int kinds rest none (put name kept values)
      | waits name ↦ parse_from parse_int kinds rest (some name) values
      | ends result ↦ result
    ]

unfoldable pub parse_flags : (String → Option ℤ) → Table Kind → List String → Parsing
unfolding parse_from
parse_flags parse_int kinds args = parse_from parse_int kinds args none List.[]

-- fs.Parse under flag.ExitOnError
unfoldable pub parse_or_exit : (String → Option ℤ) → Table Kind → List String → Prog Parsed
parse_or_exit parse_int kinds args s = elim (parse_flags parse_int kinds args) [
  | parsed p ↦ (s, returned p)
  | help ↦ (s, exited 0 "")
  | bad message ↦ (s, exited 2 message)
]

text_or : String → Option String → String
text_or default none = default
text_or default (some value) = value

-- The value of a flag, or its default.
unfoldable pub flag_text : String → String → Parsed → String
unfolding text_or
flag_text name default p = text_or default (get name p.values)

unfoldable pub flag_bool : String → Parsed → Bool
unfolding text_or
flag_bool name p = text_or "false" (get name p.values) == "true"

int_or : Option ℤ → ℤ
int_or none = pos 0
int_or (some n) = n

unfoldable pub flag_int : (String → Option ℤ) → String → Parsed → ℤ
unfolding text_or int_or
flag_int parse_int name p = int_or (parse_int (text_or "0" (get name p.values)))
