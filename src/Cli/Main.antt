-- ===== src/Cli/Main.antt =====
-- cmd/score/main.go: which command the arguments of `score` name.
use the_score.Base.{String, List, [], ◌∷◌, Option, none, some, ◌==◌, if◌then◌else◌}
use the_score.Cli.{Prog, usage}

pub data Command : Type 0 where
  start stop status sessions processes workspaces lineage events history sources : Command
  inspect observe_session run : Command

-- The switch of `main`.
unfoldable pub read_command : String → Option Command
read_command name =
    if name == "start"
    then some start
    else if name == "stop"
    then some stop
    else if name == "status"
    then some status
    else if name == "sessions"
    then some sessions
    else if name == "processes"
    then some processes
    else if name == "workspaces"
    then some workspaces
    else if name == "lineage"
    then some lineage
    else if name == "events"
    then some events
    else if name == "history"
    then some history
    else if name == "sources"
    then some sources
    else if name == "inspect"
    then some inspect
    else if name == "observe-session"
    then some observe_session
    else if name == "run"
    then some run
    else none

run_command {ℓ} :
    {A : Type ℓ} → (Command → List String → Prog A) → List String → Option Command → Prog A
run_command run_with args none = usage
run_command run_with args (some command) = run_with command args

-- main, on os.Args behind the name of the program; `run_with` runs a command.
unfoldable pub main {ℓ} : {A : Type ℓ} → (Command → List String → Prog A) → List String → Prog A
unfolding run_command
main run_with [] = usage
main run_with (name ∷ args) = run_command run_with args (read_command name)
