-- ===== src/Strings/Numbers/Laws.antt =====
-- `Atoi` reads what `Itoa` prints.
use Prim.Native.Char.{Char, code}
use Prim.Native.String.{String, [], ◌∷◌}
use the_score.Base.{
  ℕ, zero, suc, ◌+◌, ◌*◌, ◌/◌, ◌%◌, ◌<◌, ◌≤◌, Bool, true, false, some, ◌≡◌, ◌≢◌, refl, sym, ◌∙◌, ap,
  arith, leb, ltb, eqb, Bool-cases, inl, inr, ℤ, pos, negsuc, int64_max,
}
use text.Mathlib.TextLemmas.{cons-append, nil-append}
use the_score.Strings.Ops.{◌⧺◌}
use the_score.Strings.Words.{is_space}
use the_score.Strings.Words.Laws.{NoSpace, IsWord}
use the_score.Strings.Numbers.{
  digit, digits_before, decimal, itoa, digit_value, read_digits, read_number, positive, negative,
  atoi,
}

-- What the character of a digit is: one that stands for it, no sign and no space.
record IsDigit (c : Char) (d : ℕ) : Type 0 where
  value : digit_value c ≡ some d
  no_minus : eqb (code c) b'-' ≡ false
  no_plus : eqb (code c) b'+' ≡ false
  no_space : is_space c ≡ false

digit-IsDigit : (d : ℕ) → d < 10 → IsDigit (digit d) d
unfolding digit_value digit is_space
digit-IsDigit zero h = record { value = refl; no_minus = refl; no_plus = refl; no_space = refl }
digit-IsDigit (suc zero) h = record {
  value = refl;
  no_minus = refl;
  no_plus = refl;
  no_space = refl;
}
digit-IsDigit (suc (suc zero)) h = record {
  value = refl;
  no_minus = refl;
  no_plus = refl;
  no_space = refl;
}
digit-IsDigit (suc (suc (suc zero))) h = record {
  value = refl;
  no_minus = refl;
  no_plus = refl;
  no_space = refl;
}
digit-IsDigit (suc (suc (suc (suc zero)))) h = record {
  value = refl;
  no_minus = refl;
  no_plus = refl;
  no_space = refl;
}
digit-IsDigit (suc (suc (suc (suc (suc zero))))) h = record {
  value = refl;
  no_minus = refl;
  no_plus = refl;
  no_space = refl;
}
digit-IsDigit (suc (suc (suc (suc (suc (suc zero)))))) h = record {
  value = refl;
  no_minus = refl;
  no_plus = refl;
  no_space = refl;
}
digit-IsDigit (suc (suc (suc (suc (suc (suc (suc zero))))))) h = record {
  value = refl;
  no_minus = refl;
  no_plus = refl;
  no_space = refl;
}
digit-IsDigit (suc (suc (suc (suc (suc (suc (suc (suc zero)))))))) h = record {
  value = refl;
  no_minus = refl;
  no_plus = refl;
  no_space = refl;
}
digit-IsDigit (suc (suc (suc (suc (suc (suc (suc (suc (suc zero))))))))) h = record {
  value = refl;
  no_minus = refl;
  no_plus = refl;
  no_space = refl;
}
digit-IsDigit (suc (suc (suc (suc (suc (suc (suc (suc (suc (suc d)))))))))) h = absurd (omega arith)

read_digits-digit :
    (n d : ℕ) (out : String) → d < 10 → read_digits n (digit d ∷ out) ≡ read_digits (n * 10 + d) out
unfolding read_digits
read_digits-digit n d out h = rw (read_digits, (digit-IsDigit d h).value) refl

-- The last step of the printing, and one before it.
digits_before_last :
    (fuel n : ℕ) (out : String) → n < 10 → digits_before (suc fuel) n out ≡ digit n ∷ out
unfolding digits_before
digits_before_last fuel n out h =
    let small : ltb n 10 ≡ true = ground arith in rw (digits_before, small) refl

digits_before_more :
    (fuel n : ℕ) (out : String)
    → 10 ≤ n
    → digits_before (suc fuel) n out ≡ digits_before fuel (n / 10) (digit (n % 10) ∷ out)
unfolding digits_before
digits_before_more fuel n out h =
    let large : ltb n 10 ≡ false = ground arith in rw (digits_before, large) refl

read_digits-digits_before :
    (fuel n : ℕ) (out : String)
    → n < fuel
    → read_digits 0 (digits_before fuel n out) ≡ read_digits n out
read_digits-digits_before zero n out h = absurd (omega arith)
read_digits-digits_before (suc fuel) n out h = elim (Bool-cases (ltb n 10)) [
  | inl small ↦
      rw (digits_before_last fuel n out (ground arith))
        (read_digits-digit 0 n out (ground arith) ∙ ap (λ m. read_digits m out) (omega arith))
  | inr large ↦
      let back : (n / 10) * 10 + n % 10 ≡ n = omega arith in
      rw (digits_before_more fuel n out (ground arith)) (
        read_digits-digits_before fuel (n / 10) (digit (n % 10) ∷ out) (ground arith)
        ∙ read_digits-digit (n / 10) (n % 10) out (omega arith)
        ∙ ap (λ m. read_digits m out) back)
]

-- A number starts with a digit.
abbrev Starts : String → Type 0
Starts s = (d : ℕ) × (rest : String) × (d < 10) × (s ≡ digit d ∷ rest)

digits_before-Starts : (fuel n : ℕ) (out : String) → n < fuel → Starts (digits_before fuel n out)
digits_before-Starts zero n out h = absurd (omega arith)
digits_before-Starts (suc fuel) n out h = elim (Bool-cases (ltb n 10)) [
  | inl small ↦ (n, out, ground arith, digits_before_last fuel n out (ground arith))
  | inr large ↦
      rw (digits_before_more fuel n out (ground arith))
        (digits_before-Starts fuel (n / 10) (digit (n % 10) ∷ out) (ground arith))
]

decimal-Starts : (n : ℕ) → Starts (decimal n)
unfolding decimal
decimal-Starts n = digits_before-Starts (suc n) n "" (omega arith)

read_digits-decimal : (n : ℕ) → read_digits 0 (decimal n) ≡ some n
unfolding decimal read_digits
read_digits-decimal n = read_digits-digits_before (suc n) n "" (omega arith)

read_number-decimal : (n : ℕ) → read_number (decimal n) ≡ some n
unfolding read_number read_digits
read_number-decimal n =
    let p = decimal-Starts n in
    let read : read_digits 0 (digit p.0 ∷ p.1) ≡ some n =
      ap (read_digits 0) (sym p.3) ∙ read_digits-decimal n in
    rw p.3 read

-- The numbers that an `int` holds.
abbrev pub IsInt64 : ℤ → Type 0
IsInt64 (pos n) = n ≤ int64_max
IsInt64 (negsuc n) = n ≤ int64_max

atoi-decimal : (n : ℕ) → n ≤ int64_max → atoi (decimal n) ≡ some (pos n)
unfolding positive atoi
atoi-decimal n h =
    let p = decimal-Starts n in
    let unsigned = digit-IsDigit p.0 p.2 in
    let fits : leb n int64_max ≡ true = ground arith in
    let read : read_number (digit p.0 ∷ p.1) ≡ some n =
      ap read_number (sym p.3) ∙ read_number-decimal n in
    rw (p.3, unsigned.no_minus, unsigned.no_plus, read, fits) refl

negative-some : (m n : ℕ) → m ≡ suc n → n ≤ int64_max → negative (some m) ≡ some (negsuc n)
unfolding negative
negative-some zero n e h = absurd (omega (arith, e))
negative-some (suc k) n e h =
    let same : k ≡ n = omega (arith, e) in
    let fits : leb k int64_max ≡ true = ground arith in rw fits (ap (λ z. some (negsuc z)) same)

atoi_minus : (s : String) → atoi ("-" ⧺ s) ≡ negative (read_number s)
unfolding atoi
atoi_minus s = ap atoi (cons-append "-" "" s ∙ ap (λ r. "-" ∷ r) (nil-append s))

pub atoi-itoa : (n : ℤ) → IsInt64 n → atoi (itoa n) ≡ some n
unfolding itoa
atoi-itoa (pos n) h = atoi-decimal n h
atoi-itoa (negsuc n) h =
    atoi_minus (decimal (n + 1))
    ∙ ap negative (read_number-decimal (n + 1))
    ∙ negative-some (n + 1) n (omega arith) h

digits_before-NoSpace :
    (fuel n : ℕ) (out : String) → n < fuel → NoSpace out → NoSpace (digits_before fuel n out)
digits_before-NoSpace zero n out h v = absurd (omega arith)
digits_before-NoSpace (suc fuel) n out h v = elim (Bool-cases (ltb n 10)) [
  | inl small ↦
      rw (digits_before_last fuel n out (ground arith))
        ((digit-IsDigit n (ground arith)).no_space, v)
  | inr large ↦ rw (digits_before_more fuel n out (ground arith)) (
      digits_before-NoSpace fuel (n / 10) (digit (n % 10) ∷ out) (ground arith)
        ((digit-IsDigit (n % 10) (omega arith)).no_space, v))
]

decimal-NoSpace : (n : ℕ) → NoSpace (decimal n)
unfolding decimal
decimal-NoSpace n = digits_before-NoSpace (suc n) n "" (omega arith) tt

abbrev is_cons : String → Bool
is_cons [] = false
is_cons (c ∷ s) = true

decimal_there : (n : ℕ) → decimal n ≢ ""
decimal_there n e = cc (ap is_cons (sym (decimal-Starts n).3 ∙ e))

-- What `Itoa` prints of a number that is not negative is a word.
pub itoa-IsWord : (n : ℕ) → IsWord (itoa (pos n))
unfolding itoa
itoa-IsWord n = (decimal_there n, decimal-NoSpace n)
