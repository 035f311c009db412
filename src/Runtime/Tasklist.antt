-- ===== src/Runtime/Tasklist.antt =====
-- internal/runtime/process_windows.go: reading the output of `tasklist /FO CSV /NH`. How package
-- encoding/csv splits the output into records is an argument.
use the_score.Base.{String, List, [], ◌∷◌, Option, none, some, ℤ}
use the_score.Strings.{◌⧺◌}
use the_score.Strings.Numbers.{itoa, atoi}
use the_score.Model.{Time, Process, zero_process}
use the_score.Model.Confidence

task_process : Time → ℤ → String → Process
task_process time pid command = record zero_process {
  id = "process:" ⧺ itoa pid;
  kind = "process";
  pid = pid;
  command = command;
  liveness = "alive";
  source = "process";
  confidence = Confidence.medium;
  observed_at = time;
}

-- One round of the loop; `none` is a `continue`.
read_record : Time → List String → Option Process
unfolding task_process
read_record time (command ∷ pid ∷ rest) = elim (atoi pid) [
  | none ↦ none
  | some n ↦ some (task_process time n command)
]
read_record time _ = none

read_records : Time → List (List String) → List Process
unfolding read_record
read_records time [] = []
read_records time (fields ∷ records) =
    let rest = read_records time records in
    elim (read_record time fields) [ none ↦ rest | some proc ↦ proc ∷ rest ]

-- `ListProcesses`, with what the command and the CSV reader return; `none` is an error of either.
unfoldable pub list_tasks : Time → Option (List (List String)) → Option (List Process)
unfolding read_records
list_tasks time none = none
list_tasks time (some records) = some (read_records time records)
