-- ===== src/Tests/Lifecycles.antt =====
-- Runs of the daemon's start and end, and of the waiting for it.
use the_score.Base.{
  String, inl, inr, refl, ℕ, suc, ◌+◌, ◌*◌, ◌≤◌, ◌<◌, Bool, true, false, none, some, ◌≡◌, ◌≢◌, ◌↔◌,
  arith, is_some, pos, In,
}
use the_score.Model.{Time}
use the_score.Cli.Display.{second, minute, hour, human_duration}
use the_score.Cli.Display.Durations.{Shows, human_duration_below_day}
use the_score.Cli.Lifecycle.{same, wait_for_daemon, millisecond}
use the_score.Cli.Lifecycle.Waiting.{wait_for_daemon-is_some, wait_for_daemon_found}
use the_score.Cli.Lifecycle.Control.{Starting, run_start, Stopping, kill_child, write_pid}
use the_score.Cli.Lifecycle.{pid_text, read_pid}
use the_score.Cli.Lifecycle.Control.Written.{read_pid-run_start}
use the_score.Cli.Lifecycle.Control.Safety.{run_start-kill}
use the_score.Tests.{seconds}

-- A clock that is read every 100 ms, and a daemon that is there from the third look on.
abbrev ticking : ℕ → Time
ticking i = 5 + i * (100 * millisecond)

abbrev third : ℕ → Bool
third (suc (suc i)) = true
third _ = false

ticking-later : (i : ℕ) → ticking i + 100 * millisecond ≤ ticking (suc i)
ticking-later i = omega arith

wait_for_daemon-is_some_example : is_some (wait_for_daemon ticking third true 5 (5 * second)) ≡ true
wait_for_daemon-is_some_example =
    wait_for_daemon-is_some ticking third true 5 (5 * second) (omega arith) ticking-later

wait_for_daemon_found_example :
    (wait_for_daemon ticking third true 5 (5 * second) ≡ some none)
    ↔ ((j : ℕ) × (ticking j < 5 + 5 * second) × (same (third j) true ≡ true))
wait_for_daemon_found_example =
    wait_for_daemon_found ticking third true 5 (5 * second) (omega arith) ticking-later

human_duration_below_day_example :
    (90 * second < minute
      → Shows (90 * second) second 60 "s" (human_duration (λ d. 0) (pos (90 * second))))
    × (minute ≤ 90 * second
        → 90 * second < hour
        → Shows (90 * second) minute 60 "m" (human_duration (λ d. 0) (pos (90 * second))))
    × (hour ≤ 90 * second
        → Shows (90 * second) hour 24 "h" (human_duration (λ d. 0) (pos (90 * second))))
human_duration_below_day_example = human_duration_below_day (λ d. 0) (90 * second) (omega arith)

-- A start whose pid file cannot be written, and a stop that takes too long.
abbrev full_disk : Starting
full_disk = record {
  running = none;
  stale = some "/tmp/score-501.sock";
  program = some "./scored";
  pid_path = "/tmp/score-501.pid";
  log_path = "/tmp/score-501.log";
  socket = "/tmp/score-501.sock";
  mkdir_error = none;
  log_error = none;
  spawned = some (pos 77);
  spawn_error = "";
  write_error = some "no space left on device";
  waited = none;
}

abbrev stuck : Stopping
stuck = record {
  used_api = true;
  pid = some (pos 77);
  signal_error = none;
  waited = some "daemon is still reachable";
  pid_later = some (pos 77);
  pid_path = "/tmp/score-501.pid";
}

run_start-kill_example : In kill_child (run_start full_disk).effects ↔ (
    ((text : String) × In (write_pid "/tmp/score-501.pid" text) (run_start full_disk).effects)
    × (full_disk.write_error ≢ none))
run_start-kill_example = run_start-kill full_disk

pid_written_there :
    In
      (write_pid "/tmp/score-501.pid" (pid_text (pos 77)))
      (run_start (record full_disk { write_error = none })).effects
unfolding run_start
pid_written_there = inr (inr (inr (inr (inl refl))))

read_pid-run_start_example :
    ("/tmp/score-501.pid" ≡ full_disk.pid_path)
    × (read_pid (some (pid_text (pos 77))) ≡ some (pos 77))
read_pid-run_start_example =
    read_pid-run_start (record full_disk { write_error = none }) 77 "/tmp/score-501.pid"
      (pid_text (pos 77)) refl (omega arith) pid_written_there

started : seconds 0 ≢ 0
started e = omega (arith, e)
