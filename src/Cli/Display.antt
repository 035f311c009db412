-- ===== src/Cli/Display.antt =====
-- cmd/score/main.go: how values are shown.
pub mod Durations
use the_score.Base.{
  ℕ, ◌*◌, ◌/◌, ◌-◌, String, List, [], ◌∷◌, ◌==◌, if◌then◌else◌, ltb, leb, ltb_ℤ, ℤ, pos, negsuc,
  int64_max,
}
use the_score.Strings.{◌⧺◌}
use the_score.Strings.Numbers.{itoa}
use the_score.Model.{Time, Session}

unfoldable pub display_source : Session → String
display_source s =
    if s.source == ""
    then (if s.agent.adapter == "" then s.agent.name else s.agent.adapter)
    else s.source

head_or : String → List String → String
head_or text [] = text
head_or text (x ∷ xs) = x

unfoldable pub display_workspace : Session → String
unfolding head_or
display_workspace s =
    if s.cwd == "" then head_or (head_or "-" s.workspace_ids) s.workspace_roots else s.cwd

unfoldable pub first_non_empty : List String → String
first_non_empty [] = "-"
first_non_empty (value ∷ values) =
    let later = first_non_empty values in if value == "" then later else value

abbrev pub second : ℕ
second = 1000000000

abbrev pub minute : ℕ
minute = 60 * second

abbrev pub hour : ℕ
hour = 60 * minute

abbrev pub day : ℕ
day = 24 * hour

-- if d < 0 { d = 0 }
abbrev pub not_negative : ℤ → ℕ
not_negative (pos d) = d
not_negative (negsuc d) = 0

-- time.Since, which stops at the greatest `Duration`
unfoldable pub time_since : (now then_ : Time) → ℤ
time_since now then_ =
    if ltb now then_
    then negsuc (then_ - now - 1)
    else if ltb int64_max (now - then_)
    then pos int64_max
    else pos (now - then_)

-- humanDuration. `days` is `int(d.Hours()/24)`, which is computed in floating point; below a day the
-- floating-point seconds, minutes and hours truncate to the integer quotients.
unfoldable pub human_duration : (ℕ → ℕ) → ℤ → String
human_duration days duration =
    let d = not_negative duration in
    if ltb d minute
    then itoa (pos (d / second)) ⧺ "s"
    else if ltb d hour
    then itoa (pos (d / minute)) ⧺ "m"
    else if ltb d day
    then itoa (pos (d / hour)) ⧺ "h"
    else itoa (pos (days d)) ⧺ "d"
