-- ===== src/Cli/Display/Durations.antt =====
-- cmd/score/main.go: what `humanDuration` shows.
use the_score.Base.{ℕ, ◌+◌, ◌*◌, ◌/◌, ◌≤◌, ◌<◌, true, false, String, ◌≡◌, refl, arith, ltb, pos}
use the_score.Strings.{◌⧺◌}
use the_score.Strings.Numbers.{itoa}
use the_score.Cli.Display.{second, minute, hour, day, human_duration}

-- A number of units, below a limit, that fits into a duration while one more does not.
abbrev pub Shows : (d unit limit : ℕ) → (suffix shown : String) → Type 0
Shows d unit limit suffix shown =
    (n : ℕ) × (shown ≡ itoa (pos n) ⧺ suffix) × (n * unit ≤ d) × (d < (n + 1) * unit) × (n < limit)

-- A duration below a day, and not negative, is shown in the largest unit that it reaches: in whole seconds below a
-- minute, in whole minutes below an hour and else in whole hours, each rounded down.
pub human_duration_below_day :
    (days : ℕ → ℕ) (d : ℕ)
    → d < day
    → (d < minute → Shows d second 60 "s" (human_duration days (pos d)))
      × (minute ≤ d → d < hour → Shows d minute 60 "m" (human_duration days (pos d)))
      × (hour ≤ d → Shows d hour 24 "h" (human_duration days (pos d)))
unfolding human_duration
human_duration_below_day days d short = (
  λ below. (
    d / second,
    (let e : ltb d minute ≡ true = ground arith in rw e refl),
    omega arith,
    omega arith,
    omega arith,
  ),
  λ from below. (
    d / minute,
    (let e : ltb d minute ≡ false = ground arith in
        let f : ltb d hour ≡ true = ground arith in rw (e, f) refl),
    omega arith,
    omega arith,
    omega arith,
  ),
  λ from. (
    d / hour,
    (let e : ltb d minute ≡ false = ground arith in
        let f : ltb d hour ≡ false = ground arith in
        let g : ltb d day ≡ true = ground arith in rw (e, f, g) refl),
    omega arith,
    omega arith,
    omega arith,
  ),
)
