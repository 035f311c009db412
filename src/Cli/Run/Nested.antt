-- ===== src/Cli/Run/Nested.antt =====
-- cmd/score/main.go: a `score run` inside the command of another.
use the_score.Base.{
  false, String, List, [], ◌∷◌, ◌++◌, ◌≡◌, ◌≢◌, refl, ◌==◌, if◌then◌else◌, arith, eq_iff, All, sym,
  ◌∙◌,
}
use the_score.Cli.Flags.{Parsed, flag_text}
use the_score.Cli.Run.Child.{Environ, child_environ, get_env_from, get_env}
use the_score.Cli.Run.{Machine, Job, fill_job}

get_env_from-append :
    (found name : String) (xs ys : Environ)
    → get_env_from found (xs ++ ys) name ≡ get_env_from (get_env_from found xs name) ys name
unfolding get_env_from
get_env_from-append found name [] ys = refl
get_env_from-append found name ((key, value) ∷ xs) ys =
    get_env_from-append (if key == name then value else found) name xs ys

get_env-session :
    (environ : Environ) (job : Job)
    → get_env (child_environ environ job) "SCORE_SESSION_ID" ≡ job.id
unfolding get_env child_environ
get_env-session environ job = rw (get_env_from-append "" "SCORE_SESSION_ID" environ) refl

get_env-root :
    (environ : Environ) (job : Job)
    → get_env (child_environ environ job) "SCORE_ROOT_SESSION_ID" ≡ job.root
unfolding get_env child_environ
get_env-root environ job = rw (get_env_from-append "" "SCORE_ROOT_SESSION_ID" environ) refl

-- A `score run` that starts in the environment of another: what it meets, and its arguments.
pub record Launch : Type 0 where
  pub machine : Machine
  pub environ : Environ
  pub workspace : String
  pub parsed : Parsed

unfoldable pub launched : Job → Launch → Job
launched outer l =
    fill_job (record l.machine { get_env = get_env (child_environ l.environ outer) }) l.workspace
      l.parsed

-- The jobs of a chain of commands, each of which runs the next one.
unfoldable pub nested : Job → List Launch → List Job
unfolding launched
nested outer [] = []
nested outer (l ∷ ls) = launched outer l ∷ nested (launched outer l) ls

-- Without the flags that name a parent and a root.
abbrev pub Unplaced : Launch → Type 0
Unplaced l = (flag_text "parent" "" l.parsed ≡ "") × (flag_text "root" "" l.parsed ≡ "")

-- Each job stands below the one before it, under one root.
abbrev pub Linked : Job → List Job → Type 0
Linked outer [] = Unit
Linked outer (job ∷ jobs) = (job.parent ≡ outer.id) × (job.root ≡ outer.root) × Linked job jobs

launched-parent : (outer : Job) (l : Launch) → Unplaced l → (launched outer l).parent ≡ outer.id
unfolding launched fill_job
launched-parent outer l free = rw (free.0, get_env-session l.environ outer) refl

launched-root :
    (outer : Job) (l : Launch) → outer.root ≢ "" → Unplaced l → (launched outer l).root ≡ outer.root
unfolding launched fill_job
launched-root outer l rooted free =
    let e : (outer.root == "") ≡ false = ground (arith, eq_iff outer.root "") in
    rw (free.1, get_env-root l.environ outer, e) refl

-- Commands that `score run` starts inside one another, without flags for a parent and a root, stand
-- each below the one around it, and all under the root of the outermost, which has a root.
pub nested-Linked :
    (outer : Job) (ls : List Launch)
    → outer.root ≢ ""
    → All Unplaced ls
    → Linked outer (nested outer ls)
unfolding nested
nested-Linked outer [] rooted free = tt
nested-Linked outer (l ∷ ls) rooted free =
    let root = launched-root outer l rooted free.0 in
    (
      launched-parent outer l free.0,
      root,
      nested-Linked (launched outer l) ls (λ e. rooted (sym root ∙ e)) free.1,
    )
