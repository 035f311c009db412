-- ===== src/Cli/Lifecycle/Control/Written.antt =====
-- cmd/score/lifecycle.go: the pid that `score start` writes, and what `score stop` reads of it.
use the_score.Base.{
  ℕ, ◌≤◌, String, List, Option, none, some, ◌≡◌, ◌∙◌, ap, subst, arith, ℤ, pos, int64_max, In,
}
use the_score.Strings.Words.Lines.{trim_space-break}
use the_score.Strings.Numbers.{itoa, atoi}
use the_score.Strings.Numbers.Laws.{atoi-itoa, itoa-IsWord}
use the_score.Cli.Lifecycle.{pid_text, read_pid}
use the_score.Cli.Lifecycle.Control.{
  Effect, write_pid, after, Starting, run_start, start_unless, found_program, dir_made, log_opened,
  child_started, pid_written, removed,
}

read_pid-pid_text : (n : ℕ) → n ≤ int64_max → read_pid (some (pid_text (pos n))) ≡ some (pos n)
unfolding read_pid pid_text
read_pid-pid_text n fits =
    ap atoi (trim_space-break (itoa (pos n)) (itoa-IsWord n)) ∙ atoi-itoa (pos n) fits

module _ (s : Starting) (pid : ℤ) where
  -- Nothing but the pid is written, and to no other file.
  abbrev Writes : List Effect → Type 0
  Writes effects =
      (path text : String)
      → In (write_pid path text) effects
      → (path ≡ s.pid_path) × (text ≡ pid_text pid)

  pid_written-Writes : (written : Option String) → Writes (pid_written s pid written).effects
  unfolding pid_written
  pid_written-Writes none path text m = ground arith
  pid_written-Writes (some message) path text m = ground arith

  child_started-Writes :
      (spawned : Option ℤ) → spawned ≡ some pid → Writes (child_started s spawned).effects
  unfolding child_started
  child_started-Writes none e path text m = absurd m
  child_started-Writes (some p) e path text m =
      let same : p ≡ pid = ground arith in
      pid_written-Writes s.write_error path text
        (subst (λ q. In (write_pid path text) (pid_written s q s.write_error).effects) same m)

  log_opened-Writes :
      (program : String) (o : Option String)
      → s.spawned ≡ some pid
      → Writes (log_opened s program o).effects
  unfolding log_opened
  log_opened-Writes program (some message) e path text m = absurd m
  log_opened-Writes program none e path text m =
      child_started-Writes s.spawned e path text (ground arith)

  dir_made-Writes :
      (program : String) (o : Option String)
      → s.spawned ≡ some pid
      → Writes (dir_made s program o).effects
  unfolding dir_made
  dir_made-Writes program (some message) e path text m = absurd m
  dir_made-Writes program none e path text m =
      log_opened-Writes program s.log_error e path text (ground arith)

  found_program-Writes :
      (o : Option String) → s.spawned ≡ some pid → Writes (found_program s o).effects
  unfolding found_program
  found_program-Writes none e path text m = absurd m
  found_program-Writes (some program) e path text m =
      dir_made-Writes program s.mkdir_error e path text (ground arith)

  removed-Writes :
      (o : Option String)
      → s.spawned ≡ some pid
      → Writes (after (removed o) (found_program s s.program)).effects
  unfolding removed
  removed-Writes none e path text m = found_program-Writes s.program e path text m
  removed-Writes (some stale) e path text m =
      found_program-Writes s.program e path text (ground arith)

  start_unless-Writes :
      (o : Option String) → s.spawned ≡ some pid → Writes (start_unless s o).effects
  unfolding start_unless
  start_unless-Writes (some running) e path text m = absurd m
  start_unless-Writes none e path text m = removed-Writes s.stale e path text m

-- What `score start` writes is the file of the pid, and `score stop` reads in it the pid of the child,
-- a number that fits an `int`.
pub read_pid-run_start :
    (s : Starting) (n : ℕ) (path text : String)
    → s.spawned ≡ some (pos n)
    → n ≤ int64_max
    → In (write_pid path text) (run_start s).effects
    → (path ≡ s.pid_path) × (read_pid (some text) ≡ some (pos n))
unfolding run_start
read_pid-run_start s n path text spawned fits m =
    let w = start_unless-Writes s (pos n) s.running spawned path text m in
    (w.0, ap (λ t. read_pid (some t)) w.1 ∙ read_pid-pid_text n fits)
