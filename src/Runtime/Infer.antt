-- ===== src/Runtime/Infer.antt =====
-- internal/runtime/agent_process.go: which processes are coding agents.
pub mod Sound
use Prim.Native.Char.{Char, code}
use the_score.Base.{
  ℕ, ◌<◌, Bool, true, false, not, ◌&&◌, ◌||◌, String, List, [], ◌∷◌, Option, none, some, ◌==◌,
  if◌then◌else◌, starts_with, eqb, ltb, contains, is_some,
}
use the_score.Strings
use the_score.Strings.{◌⧺◌}
use the_score.Strings.Words.{trim, trim_suffix, fields, base, to_lower}
use the_score.Strings.Numbers.{itoa}
use the_score.Model.{
  Time, Session, Process, zero_session, Fields, field, end, object, int, str, bool,
}
use the_score.Model.Status
use the_score.Model.Confidence
use the_score.Runtime.{Os}

-- The keys of `knownAgentCommands`; each is its own source.
abbrev pub agent_commands : List String
agent_commands = "codex" ∷ "claude" ∷ "opencode" ∷ "hermes" ∷ "openclaw" ∷ "nanoclaw" ∷ []

-- source, ok := knownAgentCommands[base]
unfoldable pub known_agent : String → Option String
known_agent name = if contains name agent_commands then some name else none

abbrev pub launcher_commands : List String
launcher_commands =
    "bash" ∷ "bun" ∷ "deno" ∷ "node" ∷ "npx" ∷ "python" ∷ "python3" ∷ "sh" ∷ "zsh" ∷ []

-- knownLauncherCommands[base]
pub known_launcher : String → Bool
known_launcher name = contains name launcher_commands

abbrev pub script_launcher_commands : List String
script_launcher_commands = "bun" ∷ "deno" ∷ "node" ∷ "npx" ∷ "python" ∷ "python3" ∷ []

-- knownScriptLauncherCommands[base]
pub known_script_launcher : String → Bool
known_script_launcher name = contains name script_launcher_commands

abbrev is_quote : Char → Bool
is_quote c = eqb (code c) b'"' || eqb (code c) b'\''

unfoldable pub normalize_command_name : Os → String → String
normalize_command_name os command =
    let trimmed = trim is_quote command in
    let name = if os.windows then trim_suffix ".exe" (os.base_windows trimmed) else base trimmed in
    if command == "" then "" else to_lower os.lower name

abbrev head_or_empty : List String → String
head_or_empty [] = ""
head_or_empty (x ∷ xs) = x

unfoldable pub first_arg : String → String
first_arg args = head_or_empty (fields args)

unfoldable pub looks_like_command_path : String → Bool
looks_like_command_path command = Strings.contains command "/" || Strings.contains command "\\"

unfoldable pub is_app_bundle_process : String → Bool
is_app_bundle_process args = Strings.contains args ".app/Contents/"

-- The loop of `inferLauncherScriptSource` over `args[1:]`: flags are skipped, and the first other
-- argument decides.
pub script_source : Os → List String → Option String
script_source os [] = none
script_source os (arg ∷ args) =
    let later = script_source os args in
    let source = known_agent (normalize_command_name os arg) in
    if starts_with arg "-"
    then later
    else if not (is_some source)
    then none
    else if looks_like_command_path arg && not (os.exists arg)
    then none
    else source

pub infer_launcher_script_source : Os → String → List String → Option String
infer_launcher_script_source os command_base [] = none
infer_launcher_script_source os command_base (argv0 ∷ []) = none
infer_launcher_script_source os command_base (argv0 ∷ arg ∷ args) =
    if not (known_script_launcher command_base)
      && not (known_script_launcher (normalize_command_name os argv0))
    then none
    else script_source os (arg ∷ args)

-- Whether an argv[0] that names an agent is believed.
pub trusts_argv0 : Os → String → String → Bool
trusts_argv0 os command_base argv0 =
    let argv0_base = normalize_command_name os argv0 in
    argv0_base == command_base
    || known_launcher command_base
    || (looks_like_command_path argv0 && os.exists argv0)

unfoldable pub infer_agent_source : Os → Process → Option String
infer_agent_source os proc =
    let command_base = normalize_command_name os proc.command in
    let argv0 = first_arg proc.args in
    let argv0_base = normalize_command_name os argv0 in
    if is_app_bundle_process proc.args
    then none
    else if is_some (known_agent command_base)
    then known_agent command_base
    else if argv0_base == ""
    then none
    else if is_some (known_agent argv0_base) && trusts_argv0 os command_base argv0
    then known_agent argv0_base
    else infer_launcher_script_source os command_base (fields proc.args)

unfoldable pub process_session_title : String → String
process_session_title source = if source == "" then "agent" else source

unfoldable pub workspace_roots : String → List String
workspace_roots cwd = if cwd == "" then [] else cwd ∷ []

unfoldable pub workspace_ids : String → List String
workspace_ids cwd = if cwd == "" then [] else ("workspace:" ⧺ cwd) ∷ []

-- The `Meta` of an inferred session.
unfoldable pub process_meta : Process → Fields
process_meta proc =
    field "process"
      (object (
        field "pid" (int proc.pid) (
          field "ppid" (int proc.ppid) (
            field "command" (str proc.command) (
              field "args" (str proc.args)
                (field "inferred" (bool true) (field "confidence" (str Confidence.low) end)))))))
      end

-- The session that `InferAgentProcessSession` builds for a process of an agent.
unfoldable pub process_session : Process → Time → String → Session
process_session proc observed_at source =
    let id = source ⧺ ":process:" ⧺ itoa proc.pid in
    let title = process_session_title source in
    record zero_session {
      id = id;
      kind = "session";
      title = title;
      summary = "detected running process";
      status = Status.working;
      status_detail = "process active: " ⧺ title;
      confidence = Confidence.low;
      source = source;
      cwd = proc.cwd;
      workspace_roots = workspace_roots proc.cwd;
      started_at = observed_at;
      last_activity_at = observed_at;
      root_session_id = id;
      runtime_ids = proc.id ∷ [];
      workspace_ids = workspace_ids proc.cwd;
      meta = process_meta proc;
    }

unfoldable pub infer_agent_process_session : Os → Process → Time → Option Session
infer_agent_process_session os proc observed_at = elim (infer_agent_source os proc) [
  | none ↦ none
  | some source ↦ some (process_session proc observed_at source)
]
