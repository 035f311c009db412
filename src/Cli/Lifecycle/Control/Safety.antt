-- ===== src/Cli/Lifecycle/Control/Safety.antt =====
-- cmd/score/lifecycle.go: the calls of `score start` that kill the daemon it started.
use the_score.Base.{
  String, [], ◌∷◌, Option, none, some, ◌≢◌, refl, sym, arith, ℤ, In, inl, inr, ◌↔◌,
}
use the_score.Cli.Lifecycle.{pid_text}
use the_score.Cli.Lifecycle.Control.{
  Effect, try_remove, make_dir_of, open_log, spawn, write_pid, kill_child, printed, Controlled,
  after, Starting, run_start, start_unless, found_program, dir_made, log_opened, child_started,
  pid_written, removed,
}

-- A child is killed exactly where its pid was to be written and an error came of it.
abbrev Kills : Option String → Starting → Controlled → Type 0
Kills written s c =
    In kill_child c.effects
    ↔ (((text : String) × In (write_pid s.pid_path text) c.effects) × (written ≢ none))

-- An effect that neither kills the child nor writes its pid.
abbrev IsOther : Effect → Type 0
IsOther e = (e ≢ kill_child) × ((path text : String) → e ≢ write_pid path text)

after-Kills :
    (written : Option String) (s : Starting) (e : Effect) (c : Controlled)
    → IsOther e
    → Kills written s c
    → Kills written s (after (e ∷ []) c)
after-Kills written s e c other kills = (
  λ h. elim h [
    | inl here ↦ absurd (other.0 (sym here))
    | inr later ↦ let k = kills.0 later in ((k.0.0, inr k.0.1), k.1)
  ],
  λ h. elim h.0.1 [
    | inl here ↦ absurd (other.1 s.pid_path h.0.0 (sym here))
    | inr later ↦ inr (kills.1 ((h.0.0, later), h.1))
  ],
)

-- Where nothing is done, nothing is killed.
no_effects-Kills :
    (written : Option String) (s : Starting)
    → Kills written s (record { effects = []; report = printed "" })
no_effects-Kills written s = (λ h. absurd h, λ h. absurd h.0.1)

pid_written-Kills :
    (s : Starting) (pid : ℤ) (written : Option String) → Kills written s (pid_written s pid written)
unfolding pid_written
pid_written-Kills s pid none = (λ h. absurd (ground arith), λ h. absurd (h.1 refl))
pid_written-Kills s pid (some message) =
    (λ h. ((pid_text pid, inl refl), λ e. ground arith), λ h. inr (inl refl))

child_started-Kills :
    (s : Starting) (spawned : Option ℤ) → Kills s.write_error s (child_started s spawned)
unfolding child_started
child_started-Kills s none = no_effects-Kills s.write_error s
child_started-Kills s (some pid) = pid_written-Kills s pid s.write_error

spawn-IsOther : (program : String) → IsOther (spawn program)
spawn-IsOther program = (λ e. ground arith, λ path pid e. ground arith)

open_log-IsOther : (path : String) → IsOther (open_log path)
open_log-IsOther path = (λ e. ground arith, λ other pid e. ground arith)

make_dir_of-IsOther : (path : String) → IsOther (make_dir_of path)
make_dir_of-IsOther path = (λ e. ground arith, λ other pid e. ground arith)

try_remove-IsOther : (path : String) → IsOther (try_remove path)
try_remove-IsOther path = (λ e. ground arith, λ other pid e. ground arith)

log_opened-Kills :
    (s : Starting) (program : String) (failed : Option String)
    → Kills s.write_error s (log_opened s program failed)
unfolding log_opened
log_opened-Kills s program none =
    after-Kills s.write_error s (spawn program) (child_started s s.spawned) (spawn-IsOther program)
      (child_started-Kills s s.spawned)
log_opened-Kills s program (some message) = no_effects-Kills s.write_error s

dir_made-Kills :
    (s : Starting) (program : String) (failed : Option String)
    → Kills s.write_error s (dir_made s program failed)
unfolding dir_made
dir_made-Kills s program none =
    after-Kills s.write_error s (open_log s.log_path) (log_opened s program s.log_error)
      (open_log-IsOther s.log_path) (log_opened-Kills s program s.log_error)
dir_made-Kills s program (some message) = no_effects-Kills s.write_error s

found_program-Kills :
    (s : Starting) (found : Option String) → Kills s.write_error s (found_program s found)
unfolding found_program
found_program-Kills s none = no_effects-Kills s.write_error s
found_program-Kills s (some program) =
    after-Kills s.write_error s (make_dir_of s.pid_path) (dir_made s program s.mkdir_error)
      (make_dir_of-IsOther s.pid_path) (dir_made-Kills s program s.mkdir_error)

removed-Kills :
    (s : Starting) (stale : Option String) (c : Controlled)
    → Kills s.write_error s c
    → Kills s.write_error s (after (removed stale) c)
unfolding removed
removed-Kills s none c kills = kills
removed-Kills s (some path) c kills =
    after-Kills s.write_error s (try_remove path) c (try_remove-IsOther path) kills

start_unless-Kills :
    (s : Starting) (running : Option String) → Kills s.write_error s (start_unless s running)
unfolding start_unless
start_unless-Kills s none =
    removed-Kills s s.stale (found_program s s.program) (found_program-Kills s s.program)
start_unless-Kills s (some pid) = no_effects-Kills s.write_error s

-- `score start` kills the daemon that it started exactly when it went to write its pid and an error
-- came of it.
pub run_start-kill :
    (s : Starting)
    → In kill_child (run_start s).effects ↔ (
        ((text : String) × In (write_pid s.pid_path text) (run_start s).effects)
        × (s.write_error ≢ none))
unfolding run_start
run_start-kill s = start_unless-Kills s s.running
