-- ===== src/Cli/Lifecycle.antt =====
-- cmd/score/lifecycle.go: where the daemon's files are, and waiting for it to come and go.
pub mod Waiting
pub mod Control
use Prim.Native.Char.{Char, code}
use Prim.Native.String.{[], ◌∷◌}
use the_score.Base.{
  ℕ, zero, suc, ◌+◌, ◌*◌, ◌/◌, ◌||◌, Bool, true, false, not, ◌&&◌, String, Option, none, some, ◌==◌,
  if◌then◌else◌, eqb, ltb, ℤ,
}
use the_score.Strings.{◌⧺◌}
use the_score.Strings.Words.{trim_suffix, trim_space}
use the_score.Strings.Numbers.{itoa, atoi}
use the_score.Model.{Time}
use the_score.Ipc.{Host, default_address}

-- if running == wantRunning
abbrev pub same : Bool → Bool → Bool
same true b = b
same false b = not b

abbrev pub not_yet : Bool → String
not_yet true = "daemon is not reachable"
not_yet false = "daemon is still reachable"

-- The loop of `waitForDaemon` from its round `i`: `clock i` is the reading of the clock before that
-- round, and `running i` what `daemonInfo` says in it. The result is the error, if there is one;
-- without fuel there is none.
module _ (clock : ℕ → Time) (running : ℕ → Bool) (want : Bool) (deadline : Time) where
  unfoldable pub wait_from : (fuel i : ℕ) → Option (Option String)
  wait_from zero i = none
  wait_from (suc fuel) i =
      let rest = wait_from fuel (suc i) in
      if ltb (clock i) deadline
      then (if same (running i) want then some none else rest)
      else some (some (not_yet want))

abbrev pub millisecond : ℕ
millisecond = 1000000

-- The rounds that a timeout leaves room for, with 100 ms between one and the next, and the last look
-- at the clock.
abbrev pub rounds : (timeout : ℕ) → ℕ
rounds timeout = suc (timeout / (100 * millisecond) + 1)

-- waitForDaemon, from the reading `start` of the clock
unfoldable pub wait_for_daemon :
    (ℕ → Time)
    → (ℕ → Bool)
    → (want : Bool) → (start : Time) → (timeout : ℕ) → Option (Option String)
wait_for_daemon clock running want start timeout =
    wait_from clock running want (start + timeout) (rounds timeout) 0

-- filepath.Ext on Unix; `found` is the suffix from the last dot so far
ext_from : String → String → String
ext_from found [] = found
ext_from found (c ∷ s) =
    ext_from (if eqb (code c) b'/' then "" else if eqb (code c) b'.' then c ∷ s else found) s

pub ext : String → String
unfolding ext_from
ext path = ext_from "" path

-- lifecyclePaths: the files of the pid and of the log
unfoldable pub lifecycle_paths : Host → String × String
unfolding ext
lifecycle_paths host =
    let address = default_address host in
    let base = trim_suffix (ext address) address in
    if host.windows
    then (host.join host.temp_dir "score-daemon.pid", host.join host.temp_dir "score-daemon.log")
    else (base ⧺ ".pid", base ⧺ ".log")

-- What `runStart` writes to the file of the pid.
unfoldable pub pid_text : ℤ → String
pid_text pid = itoa pid ⧺ "\n"

-- readPid, on what the file holds; `none` is an error
unfoldable pub read_pid : Option String → Option ℤ
read_pid none = none
read_pid (some content) = atoi (trim_space content)

-- removeStaleSocket: the file that it removes
unfoldable pub stale_socket : Host → Option String
unfolding ext
stale_socket host =
    let address = default_address host in
    if host.windows then none else if ext address == ".sock" then some address else none

-- What `findScored` asks of the system: filepath.Join of the directory of os.Executable with a name,
-- os.Stat (a file that is no directory, and its executable bit) and exec.LookPath.
pub record Programs : Type 0 where
  pub beside : String → Option String
  pub is_file : String → Bool
  pub has_mode : String → Bool
  pub look_path : String → Option String

unfoldable pub executable_name : Bool → String → String
executable_name windows name = if windows then name ⧺ ".exe" else name

unfoldable pub is_executable : Bool → Programs → String → Bool
is_executable windows programs path = programs.is_file path && (windows || programs.has_mode path)

-- A candidate that is executable.
candidate : Bool → Programs → Option String → Option String
candidate windows programs none = none
candidate windows programs (some path) =
    if is_executable windows programs path then some path else none

or_else : Option String → Option String → Option String
or_else none other = other
or_else (some path) other = some path

-- findScored; `none` is the error that there is none to be found
unfoldable pub find_scored : Bool → Programs → Option String
unfolding candidate or_else executable_name
find_scored windows programs =
    let name = executable_name windows "scored" in
    let here = if is_executable windows programs name then some ("./" ⧺ name) else none in
    or_else (candidate windows programs (programs.beside name))
      (or_else here (programs.look_path "scored"))
