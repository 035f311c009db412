-- ===== src/Runtime/Cwd.antt =====
-- internal/runtime/process_cwd_unix.go: the working directory of a process.
use Prim.Native.Char.{code}
use Prim.Native.String.{[], ◌∷◌}
use the_score.Base.{
  Bool, ◌&&◌, not, String, List, Option, none, some, ◌==◌, if◌then◌else◌, eqb, ltb_ℤ, ℤ, pos,
}
use the_score.Strings.{◌⧺◌}
use the_score.Strings.Words.{split, trim_space}
use the_score.Strings.Numbers.{itoa}

-- What the code asks of the system: runtime.GOOS, os.Readlink, whether os.Stat finds a path, and the
-- output of `lsof -a -p PID -d cwd -Fn`, run under the given name; `none` is an error.
pub record Probe : Type 0 where
  pub linux : Bool
  pub darwin : Bool
  pub read_link : String → Option String
  pub exists : String → Bool
  pub lsof : String → String → Option String

-- The line of the output that names the directory.
cwd_line : String → Option String
cwd_line [] = none
cwd_line (c ∷ []) = none
cwd_line (c ∷ d ∷ s) = if eqb (code c) b'n' then some (trim_space (d ∷ s)) else none

-- The first such line.
cwd_in : List String → Option String
unfolding cwd_line
cwd_in List.[] = none
cwd_in (List.◌∷◌ line lines) =
    let later = cwd_in lines in elim (cwd_line line) [ none ↦ later | some cwd ↦ some cwd ]

lsof_command : Probe → String
lsof_command probe =
    if probe.darwin && probe.exists "/usr/sbin/lsof" then "/usr/sbin/lsof" else "lsof"

lookup_process_cwd_with_lsof : Probe → ℤ → Option String
unfolding cwd_in lsof_command
lookup_process_cwd_with_lsof probe pid = elim (probe.lsof (lsof_command probe) (itoa pid)) [
  | none ↦ none
  | some out ↦ cwd_in (split b'\n' out)
]

-- cwd, err == nil && cwd != ""
non_empty : Option String → Option String
non_empty none = none
non_empty (some text) = if text == "" then none else some text

-- LookupProcessCWD; `none` where it gives false
unfoldable pub lookup_process_cwd : Probe → ℤ → Option String
unfolding lookup_process_cwd_with_lsof non_empty
lookup_process_cwd probe pid =
    if not (ltb_ℤ (pos 0) pid)
    then none
    else if probe.linux
    then non_empty (probe.read_link ("/proc/" ⧺ itoa pid ⧺ "/cwd"))
    else if probe.darwin
    then lookup_process_cwd_with_lsof probe pid
    else none
