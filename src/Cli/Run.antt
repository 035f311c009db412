-- ===== src/Cli/Run.antt =====
-- cmd/score/main.go: `score run`, which runs a command and reports it as a session.
pub mod Reported
pub mod Returned
pub mod Child
pub mod Signals
pub mod Nested
use the_score.Base.{
  ℕ, Bool, true, false, not, ◌||◌, String, List, [], ◌∷◌, Option, none, some, ◌==◌, if◌then◌else◌,
  ℤ, pos,
}
use the_score.Strings.{◌⧺◌}
use the_score.Strings.Words.{base, join, to_lower, trim_suffix}
use the_score.Strings.Numbers.{itoa}
use Prim.Native.Char.{Char}
use the_score.Model.{Time, Session, zero_session, Fields, field, end, object, strings}
use the_score.Model.Status
use the_score.Model.Confidence
use the_score.Api.Handle.{Reply, Decoded, decoded, malformed}
use the_score.Client.{Params}
use the_score.Cli.{
  Prog, returned, exited, then_with, ◌>>=◌, ◌>>◌, pure, die, or_die, Output, Remote, call_or_die,
}
use the_score.Cli.Flags.{Kind, text, Parsed, parse_or_exit, flag_text}
use the_score.Cli.Observe.{
  upsert_session, upsert_workspace, upsert_edge, when_set, sent_workspace, sent_edge,
}

-- How `cmd.Wait` returns: well, with an `ExitError` of some code, or with another error.
pub data Waited : Type 0 where
  finished : Waited
  exit_error : (code : ℤ) (message : String) → Waited
  other_error : (message : String) → Waited

-- What the command meets: os.Getwd, os.Getenv, unicode.ToLower, `cmd.Start` with the pid, whether a
-- signal arrived while it ran, `cmd.Wait`, and `time.Now` at each place that reads it. The paths are
-- those of Unix.
pub record Machine : Type 0 where
  pub getwd : Decoded String
  pub get_env : String → String
  pub lower : Char → Char
  pub start : Decoded ℤ
  pub stopped : Bool
  pub waited : Waited
  pub unix_nano : ℤ
  pub started_at : Time
  pub ended_at : Time
  pub reported_at : Time
  pub finished_at : Time

unfoldable pub infer_source : (Char → Char) → String → String
infer_source lower command =
    let name = trim_suffix ".exe" (base command) in
    if name == "" || name == "." || name == "/" then "run" else to_lower lower name

-- The variables of the command once its defaults are filled in.
pub record Job : Type 0 where
  pub id : String
  pub source : String
  pub workspace : String
  pub title : String
  pub parent : String
  pub root : String
  pub command : List String

abbrev pub or_else : String → String → String
or_else value other = if value == "" then other else value

head_or_empty : List String → String
head_or_empty [] = ""
head_or_empty (x ∷ xs) = x

unfoldable pub fill_job : Machine → (workspace : String) → Parsed → Job
unfolding infer_source head_or_empty
fill_job machine workspace p =
    let name = head_or_empty p.rest in
    let source = or_else (flag_text "source" "" p) (infer_source machine.lower name) in
    let id = or_else (flag_text "id" "" p) (source ⧺ ":" ⧺ itoa machine.unix_nano) in
    let parent = or_else (flag_text "parent" "" p) (machine.get_env "SCORE_SESSION_ID") in
    record {
      id = id;
      source = source;
      workspace = workspace;
      title = or_else (flag_text "title" "" p) (base name);
      parent = parent;
      root =
          or_else (or_else (flag_text "root" "" p) (machine.get_env "SCORE_ROOT_SESSION_ID"))
            (or_else parent id);
      command = p.rest;
    }

-- The session of `upsertRunSession`.
unfoldable pub run_session :
    Job → (runtime_ids : List String) (status detail : String) → Time → Option Time → Time → Session
run_session job runtime_ids status detail started_at ended_at time = record zero_session {
  id = job.id;
  status = status;
  status_detail = detail;
  title = job.title;
  source = job.source;
  cwd = job.workspace;
  parent_session_id = job.parent;
  root_session_id = job.root;
  runtime_ids = runtime_ids;
  workspace_ids = ("workspace:" ⧺ job.workspace) ∷ [];
  confidence = Confidence.high;
  started_at = started_at;
  last_activity_at = time;
  ended_at = ended_at;
  meta = field "run" (object (field "command" (strings job.command) end)) end;
}

-- What the end of the child means: the status, the detail and the exit code.
pub record Verdict : Type 0 where
  pub status : String
  pub detail : String
  pub code : ℤ

unfoldable pub waited_verdict : String → Waited → Verdict
waited_verdict command finished = record {
  status = Status.completed;
  detail = "completed: " ⧺ command;
  code = pos 0;
}
waited_verdict command (exit_error code message) = record {
  status = Status.failed;
  detail = "failed: " ⧺ message;
  code = code;
}
waited_verdict command (other_error message) = record {
  status = Status.failed;
  detail = "failed: " ⧺ message;
  code = pos 1;
}

unfoldable pub verdict : String → Bool → Waited → Verdict
unfolding waited_verdict
verdict command stopped waited =
    if stopped
    then record { status = Status.stopped; detail = "stopped: " ⧺ command; code = pos 130 }
    else waited_verdict command waited

module _ (remote : Remote) (machine : Machine) (job : Job) where
  -- The report at the end, and the exit code.
  unfoldable pub finish_job : (runtime_id : String) → Prog ℤ
  finish_job runtime_id =
      let v = verdict (join " " job.command) machine.stopped machine.waited in
      do
        upsert_session remote (
            run_session job (runtime_id ∷ []) v.status v.detail machine.started_at
              (some machine.ended_at) machine.finished_at)
        pure v.code

  -- `cmd.Start` and what follows it.
  unfoldable pub start_job : Decoded ℤ → Prog ℤ
  start_job (malformed message) = do
    upsert_session remote (
        run_session job [] Status.failed ("start failed: " ⧺ message) machine.started_at
          (some machine.ended_at) machine.reported_at)
    die message
  start_job (decoded pid) =
      let runtime_id = "process:" ⧺ itoa pid in
      do
        reply ← upsert_session remote (
            run_session job (runtime_id ∷ []) Status.working ("running: " ⧺ join " " job.command)
              machine.started_at none machine.reported_at)
        upsert_workspace remote (sent_workspace job.workspace job.id job.source)
        when_set remote job.parent (upsert_edge remote (sent_edge job.id job.parent job.source))
            reply
        finish_job runtime_id

  -- From the health check on.
  unfoldable pub run_job : Prog ℤ
  run_job = do
    call_or_die remote (λ reply. decoded reply) "health/check" none
    start_job machine.start

-- The workspace, or the directory that `os.Getwd` gives.
work_dir : String → Decoded String → Prog String
work_dir workspace wd = if workspace == "" then or_die wd else pure workspace

is_empty : List String → Bool
is_empty [] = true
is_empty (x ∷ xs) = false

unfoldable pub run_observed_command : Remote → (String → Option ℤ) → Machine → List String → Prog ℤ
unfolding work_dir is_empty
run_observed_command remote parse_int machine args = do
  p ←
      parse_or_exit parse_int
        (("id", text)
          ∷ ("source", text)
          ∷ ("workspace", text)
          ∷ ("title", text)
          ∷ ("parent", text)
          ∷ ("root", text)
          ∷ [])
        args
  if is_empty p.rest then die "COMMAND is required" else (do
    workspace ← work_dir (flag_text "workspace" "" p) machine.getwd
    run_job remote machine (fill_job machine workspace p))
