-- ===== src/Strings/Numbers.antt =====
-- `Itoa` and `Atoi` of package strconv, for a 64-bit `int`.
pub mod Laws
pub mod Value
use Prim.Native.Char.{Char, code}
use Prim.Native.String.{String, [], ◌∷◌}
use the_score.Base.{
  ℕ, zero, suc, ◌+◌, ◌-◌, ◌*◌, ◌/◌, ◌%◌, ◌^◌, true, false, ◌&&◌, Option, none, some, if◌then◌else◌,
  eqb, leb, ltb, ℤ, pos, negsuc, int64_max,
}
use the_score.Strings.Ops.{◌⧺◌}

digit : ℕ → Char
digit d =
    if eqb d 0
    then "0"
    else if eqb d 1
    then "1"
    else if eqb d 2
    then "2"
    else if eqb d 3
    then "3"
    else if eqb d 4
    then "4"
    else if eqb d 5
    then "5"
    else if eqb d 6
    then "6"
    else if eqb d 7
    then "7"
    else if eqb d 8
    then "8"
    else "9"

-- The digits of `n` before `out`; a number has no more digits than its successor counts.
digits_before : ℕ → ℕ → String → String
unfolding digit
digits_before zero n out = out
digits_before (suc fuel) n out = elim (ltb n 10) [
  | true ↦ digit n ∷ out
  | false ↦ digits_before fuel (n / 10) (digit (n % 10) ∷ out)
]

decimal : ℕ → String
unfolding digits_before
decimal n = digits_before (suc n) n ""

-- strconv.Itoa
unfoldable pub itoa : ℤ → String
unfolding decimal
itoa (pos n) = decimal n
itoa (negsuc n) = "-" ⧺ decimal (n + 1)

-- A digit's value.
digit_value : Char → Option ℕ
digit_value c = if leb b'0' (code c) && leb (code c) b'9' then some (code c - b'0') else none

-- The number that digits spell behind `n`.
read_digits : ℕ → String → Option ℕ
unfolding digit_value
read_digits n [] = some n
read_digits n (c ∷ s) = elim (digit_value c) [ none ↦ none | some d ↦ read_digits (n * 10 + d) s ]

read_number : String → Option ℕ
unfolding read_digits
read_number [] = none
read_number (c ∷ s) = read_digits 0 (c ∷ s)

positive : Option ℕ → Option ℤ
positive none = none
positive (some n) = if leb n int64_max then some (pos n) else none

negative : Option ℕ → Option ℤ
negative none = none
negative (some zero) = some (pos 0)
negative (some (suc n)) = if leb n int64_max then some (negsuc n) else none

-- strconv.Atoi; `none` is an error
unfoldable pub atoi : String → Option ℤ
unfolding read_number positive negative
atoi [] = none
atoi (c ∷ s) =
    if eqb (code c) b'-'
    then negative (read_number s)
    else if eqb (code c) b'+'
    then positive (read_number s)
    else positive (read_number (c ∷ s))

-- The digits behind `n` as `ParseUint` reads them: it stops at the digit at which 64 bits are exceeded,
-- and `none` is a syntax error.
uint_digits : ℕ → String → Option ℕ
unfolding digit_value
uint_digits n [] = some n
uint_digits n (c ∷ s) = elim (digit_value c) [
  | none ↦ none
  | some d ↦ let m = n * 10 + d in elim (ltb m (2 ^ 64)) [ true ↦ uint_digits m s | false ↦ some m ]
]

uint_number : String → Option ℕ
unfolding uint_digits
uint_number [] = none
uint_number (c ∷ s) = uint_digits 0 (c ∷ s)

nearest_positive : Option ℕ → ℤ
nearest_positive none = pos 0
nearest_positive (some n) = if leb n int64_max then pos n else pos int64_max

nearest_negative : Option ℕ → ℤ
nearest_negative none = pos 0
nearest_negative (some zero) = pos 0
nearest_negative (some (suc n)) = if leb n int64_max then negsuc n else negsuc int64_max

-- n, _ := strconv.Atoi(text): 0 on a syntax error, and on a range error the nearest `int`
unfoldable pub int_or_zero : String → ℤ
unfolding uint_number nearest_positive nearest_negative
int_or_zero [] = pos 0
int_or_zero (c ∷ s) =
    if eqb (code c) b'-'
    then nearest_negative (uint_number s)
    else if eqb (code c) b'+'
    then nearest_positive (uint_number s)
    else nearest_positive (uint_number (c ∷ s))
