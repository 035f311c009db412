-- ===== src/Runtime/Ps.antt =====
-- internal/runtime/process_unix.go: reading the output of `ps -axo pid=,ppid=,comm=,args=`.
pub mod Reads
use the_score.Base.{String, List, [], ◌∷◌, Option, none, some, ◌==◌, if◌then◌else◌, ℤ, pos}
use the_score.Strings.{◌⧺◌}
use the_score.Strings.Words.{trim_space, fields, split, join}
use the_score.Strings.Numbers.{itoa, atoi, int_or_zero}
use the_score.Model.{Time, Process, zero_process}
use the_score.Model.Confidence

listed_process : Time → ℤ → ℤ → String → List String → Process
listed_process time pid ppid command rest = record zero_process {
  id = "process:" ⧺ itoa pid;
  kind = "process";
  pid = pid;
  ppid = ppid;
  command = command;
  args = join " " rest;
  liveness = "alive";
  source = "process";
  confidence = Confidence.high;
  observed_at = time;
}

-- One round of the loop, over the fields of a line; `none` is a `continue`.
read_fields : Time → List String → Option Process
unfolding listed_process
read_fields time (pid ∷ ppid ∷ command ∷ rest) = elim (atoi pid) [
  | none ↦ none
  | some n ↦ some (listed_process time n (int_or_zero ppid) command rest)
]
read_fields time _ = none

read_line : Time → String → Option Process
unfolding read_fields
read_line time raw =
    let line = trim_space raw in if line == "" then none else read_fields time (fields line)

read_lines : Time → List String → List Process
unfolding read_line
read_lines time [] = []
read_lines time (raw ∷ raws) =
    let rest = read_lines time raws in
    elim (read_line time raw) [ none ↦ rest | some proc ↦ proc ∷ rest ]

-- `ListProcesses` on the output of `ps`; `none` is an error of the command.
unfoldable pub list_processes : Time → Option String → Option (List Process)
unfolding read_lines
list_processes time none = none
list_processes time (some out) = some (read_lines time (split b'\n' out))
