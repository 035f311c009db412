-- ===== src/Cli/Lifecycle/Control.antt =====
-- cmd/score/lifecycle.go: `score start`, `score stop` and `score status`. What a command does to the
-- system is the list of the calls that it makes.
pub mod Safety
pub mod Stops
pub mod Written
use the_score.Base.{ℕ, Bool, true, false, String, List, [], ◌∷◌, ◌++◌, Option, none, some, ℤ}
use the_score.Strings.{◌⧺◌}
use the_score.Strings.Numbers.{itoa}
use the_score.Cli.Lifecycle.{pid_text}

-- The calls by which the command changes something outside itself. An error of `os.Remove`, of the kill
-- of the child and of the kill of an overdue daemon is ignored by the code, so that `try_remove`,
-- `kill_child` and `kill` say that the call is made, not that it does anything.
pub data Effect : Type 0 where
  try_remove : String → Effect
  make_dir_of : String → Effect
  open_log : String → Effect
  spawn : (program : String) → Effect
  write_pid : (path text : String) → Effect
  kill_child : Effect
  signal : ℤ → Effect
  kill : ℤ → Effect

-- What the command printed, or the message with which it exited with status 1.
pub data Report : Type 0 where
  printed : String → Report
  died : String → Report

pub record Controlled : Type 0 where
  pub effects : List Effect
  pub report : Report

-- What `runStart` meets: `daemonInfo`, the stale socket, the path of the daemon or the error of
-- `findScored`, the two paths, the socket, and the errors of the calls; `waited` is what
-- `waitForDaemon` returns.
pub record Starting : Type 0 where
  pub running : Option String
  pub stale : Option String
  pub program : Option String
  pub pid_path : String
  pub log_path : String
  pub socket : String
  pub mkdir_error : Option String
  pub log_error : Option String
  pub spawned : Option ℤ
  pub spawn_error : String
  pub write_error : Option String
  pub waited : Option String

cannot_find : String
cannot_find = "cannot find scored; build it with: go build -o scored ./cmd/scored"

waited_start : Starting → ℤ → Option String → Report
waited_start s pid none =
    printed ("scored started pid=" ⧺ itoa pid ⧺ " socket=" ⧺ s.socket ⧺ " log=" ⧺ s.log_path)
waited_start s pid (some message) = died (
    "scored started pid="
    ⧺ itoa pid
    ⧺ " but did not become reachable: "
    ⧺ message
    ⧺ "; log="
    ⧺ s.log_path)

-- After the child was started with a pid.
pid_written : Starting → ℤ → Option String → Controlled
unfolding waited_start
pid_written s pid (some message) = record {
  effects = write_pid s.pid_path (pid_text pid) ∷ kill_child ∷ [];
  report = died message;
}
pid_written s pid none = record {
  effects = write_pid s.pid_path (pid_text pid) ∷ [];
  report = waited_start s pid s.waited;
}

-- More effects, before those of the rest.
abbrev pub after : List Effect → Controlled → Controlled
after effects rest = record rest { effects = effects ++ rest.effects }

child_started : Starting → Option ℤ → Controlled
unfolding pid_written
child_started s none = record { effects = []; report = died s.spawn_error }
child_started s (some pid) = pid_written s pid s.write_error

log_opened : Starting → String → Option String → Controlled
unfolding child_started
log_opened s program (some message) = record { effects = []; report = died message }
log_opened s program none = after (spawn program ∷ []) (child_started s s.spawned)

dir_made : Starting → String → Option String → Controlled
unfolding log_opened
dir_made s program (some message) = record { effects = []; report = died message }
dir_made s program none = after (open_log s.log_path ∷ []) (log_opened s program s.log_error)

found_program : Starting → Option String → Controlled
unfolding dir_made cannot_find
found_program s none = record { effects = []; report = died cannot_find }
found_program s (some program) =
    after (make_dir_of s.pid_path ∷ []) (dir_made s program s.mkdir_error)

removed : Option String → List Effect
removed none = []
removed (some path) = try_remove path ∷ []

start_unless : Starting → Option String → Controlled
unfolding found_program removed
start_unless s (some pid) = record {
  effects = [];
  report = printed ("scored already running pid=" ⧺ pid ⧺ " socket=" ⧺ s.socket);
}
start_unless s none = after (removed s.stale) (found_program s s.program)

-- runStart
unfoldable pub run_start : Starting → Controlled
unfolding start_unless
run_start s = start_unless s s.running

-- What `runStop` meets: whether the daemon took `daemon/shutdown`, what `readPid` gives before and
-- after the wait, the error of the signal, and what the first wait returns.
pub record Stopping : Type 0 where
  pub used_api : Bool
  pub pid : Option ℤ
  pub signal_error : Option String
  pub waited : Option String
  pub pid_later : Option ℤ
  pub pid_path : String

killed : Option ℤ → List Effect
killed none = []
killed (some pid) = kill pid ∷ []

-- A daemon that is still reachable is killed, if there is a pid. What the kill and the second wait
-- return is ignored.
overdue : Option ℤ → Option String → List Effect
unfolding killed
overdue pid none = []
overdue pid (some message) = killed pid

-- From the wait on. The pid file may not be there; `scored stopped` is printed all the same.
stop_waiting : Stopping → Controlled
unfolding overdue
stop_waiting s = record {
  effects = overdue s.pid_later s.waited ++ try_remove s.pid_path ∷ [];
  report = printed "scored stopped";
}

signalled : Stopping → Option String → Controlled
unfolding stop_waiting
signalled s (some message) = record { effects = []; report = died message }
signalled s none = stop_waiting s

stop_by_signal : Stopping → Option ℤ → Controlled
unfolding signalled
stop_by_signal s none = record { effects = []; report = printed "scored is not running" }
stop_by_signal s (some pid) = after (signal pid ∷ []) (signalled s s.signal_error)

-- runStop
unfoldable pub run_stop : Stopping → Controlled
unfolding stop_waiting stop_by_signal
run_stop s = elim s.used_api [ true ↦ stop_waiting s | false ↦ stop_by_signal s s.pid ]

-- What `daemonInfo` says of a daemon that answers, as `%v` shows it.
pub record Info : Type 0 where
  pub pid : String
  pub started_at : String

-- What `score status` prints: the map of `--json`, or a line.
pub data Shown : Type 0 where
  status_json : (running : Bool) (socket pid_file : String) (daemon : Option Info) → Shown
  status_line : String → Shown

answers : Option Info → Bool
answers none = false
answers (some info) = true

info_line : String → Option Info → String
info_line socket none = "scored stopped socket=" ⧺ socket
info_line socket (some info) =
    "scored running pid=" ⧺ info.pid ⧺ " socket=" ⧺ socket ⧺ " startedAt=" ⧺ info.started_at

-- runStatus
unfoldable pub run_status : (as_json : Bool) (socket pid_file : String) → Option Info → Shown
unfolding answers info_line
run_status true socket pid_file info = status_json (answers info) socket pid_file info
run_status false socket pid_file info = status_line (info_line socket info)
