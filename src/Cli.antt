-- ===== src/Cli.antt =====
-- cmd/score: the command line. A command is a program over the daemon's store that prints at its end
-- or exits with a status and a message.
pub mod Flags
pub mod Keeps
pub mod Returning
pub mod Display
pub mod Read
pub mod Inspect
pub mod Observe
pub mod Run
pub mod Lifecycle
pub mod Main
use the_score.Base.{ℕ, String, List, Option, none, some, true}
use the_score.Strings.{◌⧺◌}
use the_score.Model.{Event}
use the_score.Store.{Store}
use the_score.Api.Handle.{Decoded, decoded, malformed, Reply}
use the_score.Client.{Params, Wire, Exchange, Called, call, fresh_client}

pub data Ending {ℓ} (A : Type ℓ) : Type ℓ where
  returned : A → Ending A
  exited : (status : ℕ) (message : String) → Ending A

abbrev pub Prog {ℓ} : Type ℓ → Type ℓ
Prog A = Store → Store × Ending A

-- What a part leaves, handed to the rest.
abbrev pub then_with {ℓ κ} :
    {A : Type ℓ} {B : Type κ} → (A → Prog B) → Store → Ending A → Store × Ending B
then_with f s (returned a) = f a s
then_with f s (exited status message) = (s, exited status message)

infixl 5 ◌>>=◌ ◌>>◌
abbrev pub ◌>>=◌ {ℓ κ} : {A : Type ℓ} {B : Type κ} → Prog A → (A → Prog B) → Prog B
◌>>=◌ m f s = let p = m s in then_with f p.0 p.1

abbrev pub ◌>>◌ {ℓ κ} : {A : Type ℓ} {B : Type κ} → Prog A → Prog B → Prog B
m >> k = m >>= λ _. k

abbrev pub pure {ℓ} : {A : Type ℓ} → A → Prog A
pure a s = (s, returned a)

-- die and dieDaemon
abbrev pub die {ℓ} : {A : Type ℓ} → String → Prog A
die message s = (s, exited 1 ("score: " ⧺ message))

abbrev pub die_daemon {ℓ} : {A : Type ℓ} → String → Prog A
die_daemon message s =
    (s, exited 1 ("score: cannot reach scored: " ⧺ message ⧺ "\nstart it with: scored"))

-- The text of `usage`, without the end of its last line.
abbrev usage_text : String
usage_text =
    "score is the CLI client for scored.\n" ⧺ "\n" ⧺ "Usage:\n" ⧺ "  score start [--scored PATH]\n"
    ⧺ "  score stop\n" ⧺ "  score status [--json]\n"
    ⧺ "  score sessions [--all] [--status working,blocked] [--workspace PATH] [--source ID] [--json]\n"
    ⧺ "  score processes [--json]\n" ⧺ "  score workspaces [--json]\n"
    ⧺ "  score lineage [session-id] [--json]\n" ⧺ "  score events [--since N] [--watch] [--json]\n"
    ⧺ "  score history [--since N] [--json]\n" ⧺ "  score sources [doctor [source-id]] [--json]\n"
    ⧺ "  score inspect <id> [--json]\n"
    ⧺ "  score observe-session --id ID --status STATUS [--source ID] [--workspace PATH] [--activity TEXT]\n"
    ⧺ "  score run [--id ID] [--source ID] [--workspace PATH] [--title TEXT] -- COMMAND [ARGS...]"

-- usage(); os.Exit(2)
abbrev pub usage {ℓ} : {A : Type ℓ} → Prog A
usage s = (s, exited 2 usage_text)

-- What a command prints: the rows of a table, a value as JSON, or a line.
pub data Output : Type 0 where
  table : List (List String) → Output
  json : Reply → Output
  json_event : Event → Output
  line : String → Output

-- What becomes of one connection and call.
pub data Answer : Type 0 where
  unreachable : String → Answer
  answered : Decoded (Option Reply) → Answer

abbrev pub Remote : Type 0
Remote = String → Option Params → Store → Store × Answer

-- A command dials for each call. `dialled` is the error of `Dial`.
unfoldable pub called_remote : Wire → Exchange → Option String → Remote
called_remote wire exchange (some message) method params s = (s, unreachable message)
called_remote wire exchange none method params s =
    let c = call wire exchange method params true fresh_client s in (c.store, answered c.answer)

unfoldable pub client_remote : Wire → Exchange → Option String → Remote
unfolding called_remote
client_remote wire exchange dialled = called_remote wire exchange dialled

unfoldable pub read_reply {ℓ} : {A : Type ℓ} → (Reply → Decoded A) → Option Reply → Decoded A
read_reply read none = malformed "unexpected end of JSON input"
read_reply read (some reply) = read reply

unfoldable pub read_answer {ℓ} :
    {A : Type ℓ} → (Reply → Decoded A) → Decoded (Option Reply) → Decoded A
unfolding read_reply
read_answer read (malformed message) = malformed message
read_answer read (decoded reply) = read_reply read reply

unfoldable pub ended_call {ℓ} : {A : Type ℓ} → (Reply → Decoded A) → Answer → Ending (Decoded A)
unfolding read_answer
ended_call read (unreachable message) =
    exited 1 ("score: cannot reach scored: " ⧺ message ⧺ "\nstart it with: scored")
ended_call read (answered answer) = returned (read_answer read answer)

-- callErr. `read` says what the reply leaves in the variable of the caller.
unfoldable pub call_err {ℓ} :
    {A : Type ℓ} → Remote → (Reply → Decoded A) → String → Option Params → Prog (Decoded A)
unfolding ended_call
call_err remote read method params s = let p = remote method params s in (p.0, ended_call read p.1)

unfoldable pub or_die {ℓ} : {A : Type ℓ} → Decoded A → Prog A
or_die (malformed message) = die message
or_die (decoded a) = pure a

-- call
unfoldable pub call_or_die {ℓ} :
    {A : Type ℓ} → Remote → (Reply → Decoded A) → String → Option Params → Prog A
unfolding or_die
call_or_die remote read method params = do
  answer ← call_err remote read method params
  or_die answer
