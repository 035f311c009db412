-- ===== src/Strings/Numbers/Value.antt =====
-- The value of `Atoi` whose error is ignored.
use Prim.Native.Char.{code}
use Prim.Native.String.{String, [], ◌∷◌}
use the_score.Base.{
  ℕ, zero, suc, ◌+◌, ◌*◌, ◌^◌, ◌<◌, ◌≤◌, true, some, ◌≡◌, arith, leb, ltb, eqb, Bool-cases,
  Option-cases, inl, inr, ℤ, int64_max,
}
use the_score.Strings.Numbers.{
  digit_value, read_digits, read_number, positive, negative, atoi, uint_digits, uint_number,
  nearest_positive, nearest_negative, int_or_zero,
}

read_digits-le : (n k : ℕ) (s : String) → read_digits n s ≡ some k → n ≤ k
unfolding read_digits
read_digits-le n k [] h = ground (arith, h)
read_digits-le n k (c ∷ s) h = elim (Option-cases (digit_value c)) [
  | inl none_there ↦ absurd (ground (arith, none_there, h))
  | inr (d, there) ↦
      let h' : read_digits (n * 10 + d) s ≡ some k = rw (read_digits, there) at h in
      omega (arith, read_digits-le (n * 10 + d) k s h')
]

uint_digits-read_digits :
    (n k : ℕ) (s : String) → k < 2 ^ 64 → read_digits n s ≡ some k → uint_digits n s ≡ some k
unfolding read_digits uint_digits
uint_digits-read_digits n k [] small h = h
uint_digits-read_digits n k (c ∷ s) small h = elim (Option-cases (digit_value c)) [
  | inl none_there ↦ absurd (ground (arith, none_there, h))
  | inr (d, there) ↦
      let h' : read_digits (n * 10 + d) s ≡ some k = rw (read_digits, there) at h in
      let below : ltb (n * 10 + d) (2 ^ 64) ≡ true =
        ground (arith, read_digits-le (n * 10 + d) k s h', small) in
      rw (uint_digits, there, below) (uint_digits-read_digits (n * 10 + d) k s small h')
]

uint_number-read_number :
    (k : ℕ) (s : String) → k < 2 ^ 64 → read_number s ≡ some k → uint_number s ≡ some k
unfolding read_number uint_number
uint_number-read_number k [] small h = h
uint_number-read_number k (c ∷ s) small h = uint_digits-read_digits 0 k (c ∷ s) small h

nearest_positive-positive :
    (s : String) (n : ℤ) → positive (read_number s) ≡ some n → nearest_positive (uint_number s) ≡ n
unfolding positive nearest_positive
nearest_positive-positive s n h = elim (Option-cases (read_number s)) [
  | inl missing ↦ absurd (ground (arith, missing, h))
  | inr (k, there) ↦
      let h' = rw there at h in
      let fits : leb k int64_max ≡ true = ground (arith, h') in
      rw (uint_number-read_number k s (ground (arith, fits)) there) (ground (arith, h', fits))
]

nearest_negative-negative :
    (s : String) (n : ℤ) → negative (read_number s) ≡ some n → nearest_negative (uint_number s) ≡ n
unfolding negative nearest_negative
nearest_negative-negative s n h = elim (Option-cases (read_number s)) [
  | inl missing ↦ absurd (ground (arith, missing, h))
  | inr (zero, there) ↦
      let h' = rw there at h in
      rw (uint_number-read_number zero s (omega arith) there) (ground (arith, h'))
  | inr (suc k, there) ↦
      let h' = rw there at h in
      let fits : leb k int64_max ≡ true = ground (arith, h') in
      rw (uint_number-read_number (suc k) s (ground (arith, fits)) there) (ground (arith, h', fits))
]

-- Where there is no error, it is the number that `Atoi` returns.
pub int_or_zero-atoi : (s : String) (n : ℤ) → atoi s ≡ some n → int_or_zero s ≡ n
unfolding atoi int_or_zero
int_or_zero-atoi [] n h = absurd (ground (arith, h))
int_or_zero-atoi (c ∷ s) n h = elim (Bool-cases (eqb (code c) b'-')) [
  | inl minus ↦ rw minus (nearest_negative-negative s n (rw minus at h))
  | inr other ↦ elim (Bool-cases (eqb (code c) b'+')) [
    | inl plus ↦ rw (other, plus) (nearest_positive-positive s n (rw (other, plus) at h))
    | inr unsigned ↦
        rw (other, unsigned) (nearest_positive-positive (c ∷ s) n (rw (other, unsigned) at h))
  ]
]
