-- ===== src/Cli/Run/Child.antt =====
-- cmd/score/main.go: the environment that `score run` gives its command.
use the_score.Base.{String, List, [], ◌∷◌, ◌++◌, ◌==◌, if◌then◌else◌}
use the_score.Strings.{◌⧺◌}
use the_score.Cli.Run.{Job}

-- A variable of the environment, and its value.
abbrev pub Environ : Type 0
Environ = List (String × String)

-- `cmd.Env`, behind `os.Environ()`
unfoldable pub child_environ : Environ → Job → Environ
child_environ environ job =
    environ
    ++ ("SCORE_SESSION_ID", job.id)
      ∷ ("SCORE_PARENT_SESSION_ID", job.parent)
      ∷ ("SCORE_ROOT_SESSION_ID", job.root)
      ∷ ("SCORE_WORKSPACE_ID", "workspace:" ⧺ job.workspace)
      ∷ ("SCORE_SOURCE", job.source)
      ∷ []

-- `os.Getenv` in a process that os/exec started: the last value of a name counts.
unfoldable pub get_env_from : String → Environ → String → String
get_env_from found [] name = found
get_env_from found ((key, value) ∷ environ) name =
    get_env_from (if key == name then value else found) environ name

unfoldable pub get_env : Environ → String → String
unfolding get_env_from
get_env environ name = get_env_from "" environ name
