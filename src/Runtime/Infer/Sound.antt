-- ===== src/Runtime/Infer/Sound.antt =====
-- When a process is taken for an agent.
use text.Mathlib.TextLemmas.{length-append as count-append}
use Prim.Native.String.{count}
use the_score.Base.{
  ◌<◌, true, false, String, List, [], ◌∷◌, none, some, ◌≡◌, ◌≢◌, ◌↔◌, ◌⊎◌, sym, subst, ap, arith,
  eq_iff, inl, inr, starts_with, In, contains, contains_iff, Option-cases, Bool-cases,
}
use the_score.Strings.{◌⧺◌}
use the_score.Strings.Words.{fields}
use the_score.Strings.Numbers.{itoa}
use the_score.Model.{Time, Session, Process}
use the_score.Runtime.{Os}
use the_score.Runtime.Infer.{
  agent_commands, known_agent, launcher_commands, known_launcher, script_launcher_commands,
  known_script_launcher, normalize_command_name, first_arg, looks_like_command_path,
  is_app_bundle_process, script_source, infer_launcher_script_source, trusts_argv0,
  infer_agent_source, process_session, infer_agent_process_session,
}

-- One of the agents, of the launchers and of the launchers of scripts that the source lists.
pub IsAgent : String → Type 0
IsAgent name = In name agent_commands

IsLauncher : String → Type 0
IsLauncher name = In name launcher_commands

IsScriptLauncher : String → Type 0
IsScriptLauncher name = In name script_launcher_commands

known_agent_iff :
    (name source : String) → (known_agent name ≡ some source) ↔ ((name ≡ source) × IsAgent source)
unfolding known_agent IsAgent
known_agent_iff name source =
    let member = contains_iff name agent_commands in
    (
      λ h.
          let named : contains name agent_commands ≡ true = ground (arith, h) in
          let same : name ≡ source = ground (arith, h) in
          (same, subst (λ k. In k agent_commands) same (member.0 named)),
      λ (same, m). rw (← same, member.1 (subst (λ k. In k agent_commands) (sym same) m)),
    )

known_launcher_iff : (name : String) → (known_launcher name ≡ true) ↔ IsLauncher name
unfolding known_launcher IsLauncher
known_launcher_iff name = contains_iff name launcher_commands

known_script_launcher_iff :
    (name : String) → (known_script_launcher name ≡ true) ↔ IsScriptLauncher name
unfolding known_script_launcher IsScriptLauncher
known_script_launcher_iff name = contains_iff name script_launcher_commands

-- An argument that is not a flag names the agent, and if it is a path, the file is there.
abbrev ArgNames : Os → String → String → Type 0
ArgNames os arg source =
    (normalize_command_name os arg ≡ source)
    × IsAgent source
    × ((looks_like_command_path arg ≡ false) ⊎ (os.exists arg ≡ true))

-- The first argument that is not a flag names the agent.
abbrev ScriptNames : Os → List String → String → Type 0
ScriptNames os [] source = ⊥
ScriptNames os (arg ∷ args) source =
    ((starts_with arg "-" ≡ true) × ScriptNames os args source)
    ⊎ ((starts_with arg "-" ≡ false) × ArgNames os arg source)

script_source_iff :
    (os : Os) (args : List String) (source : String)
    → (script_source os args ≡ some source) ↔ ScriptNames os args source
unfolding script_source
script_source_iff os [] source = ground arith
script_source_iff os (arg ∷ args) source = ground (
  arith,
  script_source_iff os args source,
  known_agent_iff (normalize_command_name os arg) source,
)

-- The program of `args` is known to run scripts, by its command or by its argv[0], and the first
-- other argument that is not a flag names the agent.
pub LaunchNames : Os → String → List String → String → Type 0
LaunchNames os command_base [] source = ⊥
LaunchNames os command_base (argv0 ∷ args) source =
    (IsScriptLauncher command_base ⊎ IsScriptLauncher (normalize_command_name os argv0))
    × ScriptNames os args source

none-ne-some : {source : String} → none ≢ some source
none-ne-some h = cc

launch_sound :
    (os : Os) (command_base : String) (args : List String) (source : String)
    → infer_launcher_script_source os command_base args ≡ some source
    → LaunchNames os command_base args source
unfolding infer_launcher_script_source LaunchNames
launch_sound os command_base [] source h = cc
launch_sound os command_base (argv0 ∷ []) source h = cc
launch_sound os command_base (argv0 ∷ arg ∷ args) source h =
    let base = normalize_command_name os argv0 in
    let names = (script_source_iff os (arg ∷ args) source).0 in
    elim (Bool-cases (known_script_launcher command_base)) [
      | inl here ↦ (inl ((known_script_launcher_iff command_base).0 here), names (rw here at h))
      | inr other ↦ elim (Bool-cases (known_script_launcher base)) [
        | inl here ↦ (inr ((known_script_launcher_iff base).0 here), names (rw (other, here) at h))
        | inr neither ↦ absurd (none-ne-some (rw (other, neither) at h))
      ]
    ]

ScriptNames-IsAgent :
    (os : Os) (args : List String) (source : String) → ScriptNames os args source → IsAgent source
ScriptNames-IsAgent os [] source h = absurd h
ScriptNames-IsAgent os (arg ∷ args) source (inl (flag, h)) = ScriptNames-IsAgent os args source h
ScriptNames-IsAgent os (arg ∷ args) source (inr (other, named)) = named.1

launch-IsAgent :
    (os : Os) (command_base : String) (args : List String) (source : String)
    → LaunchNames os command_base args source
    → IsAgent source
unfolding LaunchNames
launch-IsAgent os command_base [] source h = absurd h
launch-IsAgent os command_base (argv0 ∷ args) source (_, h) = ScriptNames-IsAgent os args source h

-- An argv[0] that names an agent counts if the command has the same name, if the command is a
-- launcher, or if it is the path of a file.
pub Trusted : Os → String → String → Type 0
Trusted os command_base argv0 =
    (normalize_command_name os argv0 ≡ command_base)
    ⊎ IsLauncher command_base
    ⊎ ((looks_like_command_path argv0 ≡ true) × (os.exists argv0 ≡ true))

trusts_argv0_iff :
    (os : Os) (command_base argv0 : String)
    → (trusts_argv0 os command_base argv0 ≡ true) ↔ Trusted os command_base argv0
unfolding trusts_argv0 Trusted
trusts_argv0_iff os command_base argv0 =
    ground (
      arith,
      eq_iff (normalize_command_name os argv0) command_base,
      known_launcher_iff command_base,
    )

-- What makes a process an agent.
abbrev pub Evidence : Os → Process → String → Type 0
Evidence os proc source =
    (normalize_command_name os proc.command ≡ source)
    ⊎ ((normalize_command_name os (first_arg proc.args) ≡ source)
        × Trusted os (normalize_command_name os proc.command) (first_arg proc.args))
    ⊎ LaunchNames os (normalize_command_name os proc.command) (fields proc.args) source

-- A process is taken for an agent only if it is no part of an application bundle, the agent is one
-- of those that the source lists, and the agent is named by the command, by an argv[0] that is trusted,
-- or, under a launcher of scripts, by the first other argument without a leading dash, whose file is
-- there if it is a path.
pub infer_agent_source_sound :
    (os : Os) (proc : Process) (source : String)
    → infer_agent_source os proc ≡ some source
    → (is_app_bundle_process proc.args ≡ false) × IsAgent source × Evidence os proc source
unfolding infer_agent_source
infer_agent_source_sound os proc source h =
    let command_base = normalize_command_name os proc.command in
    let argv0 = first_arg proc.args in
    ground (
      arith,
      known_agent_iff command_base source,
      known_agent_iff (normalize_command_name os argv0) source,
      trusts_argv0_iff os command_base argv0,
      launch_sound os command_base (fields proc.args) source,
      launch-IsAgent os command_base (fields proc.args) source,
    )

pub infer-eq-some :
    (os : Os) (proc : Process) (t : Time) (y : Session)
    → infer_agent_process_session os proc t ≡ some y
    → (source : String) × (infer_agent_source os proc ≡ some source)
      × (y ≡ process_session proc t source)
unfolding infer_agent_process_session
infer-eq-some os proc t y h = elim (Option-cases (infer_agent_source os proc)) [
  | inl missing ↦ absurd (ground (arith, missing, h))
  | inr (source, found) ↦ (source, found, ground (arith, found, h))
]

text-ne-nil : (left right : String) → 0 < count right → left ⧺ right ≢ ""
text-ne-nil left right h e = omega (arith, ap count e, count-append left right)

pub process_session-id-ne-nil :
    (proc : Process) (t : Time) (source : String) → (process_session proc t source).id ≢ ""
unfolding process_session
process_session-id-ne-nil proc t source =
    let tail = itoa proc.pid in
    text-ne-nil source (":process:" ⧺ tail) (omega (arith, count-append ":process:" tail))
