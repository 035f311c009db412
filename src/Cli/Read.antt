-- ===== src/Cli/Read.antt =====
-- cmd/score/main.go: the commands sessions, processes, workspaces and history, and the rows of the
-- tables. A reply of another type than the method's, which the daemon never
-- sends, is an error of the call.
use the_score.Base.{
  ℕ, Bool, true, false, String, List, [], ◌∷◌, Option, none, some, ◌==◌, if◌then◌else◌, map, keep,
  not, ℤ, pos,
}
use the_score.Strings.Words.{split, trim_space, join}
use the_score.Strings.Numbers.{itoa}
use the_score.Model.{Time, Session, Process, Workspace, Edge, Event, Source, Lineage}
use the_score.Api.Handle.{Decoded, decoded, malformed, Reply}
use the_score.Client.{Params}
use the_score.Cli.{Prog, ◌>>=◌, pure, Output, Remote, call_or_die}
use the_score.Cli.Flags.{boolean, text, number, parse_or_exit, flag_text, flag_bool, flag_int}
use the_score.Cli.Display.{
  display_source, display_workspace, first_non_empty, time_since, human_duration,
}

-- What the commands ask of packages strconv and time: `ParseInt(text, 0, 64)`, `time.Now`, which
-- the rows share, `Format`
-- with RFC3339, and `int(d.Hours()/24)`.
pub record Host : Type 0 where
  pub parse_int : String → Option ℤ
  pub now : Time
  pub format_time : Time → String
  pub days : ℕ → ℕ

abbrev mismatch {ℓ} : {A : Type ℓ} → Decoded A
mismatch = malformed "json: cannot unmarshal"

-- The variables that the replies are read into.
abbrev pub as_reply : Reply → Decoded Reply
as_reply reply = decoded reply

pub as_sessions : Reply → Decoded (List Session)
as_sessions (Reply.sessions xs) = decoded xs
as_sessions _ = mismatch

pub as_processes : Reply → Decoded (List Process)
as_processes (Reply.processes xs) = decoded xs
as_processes _ = mismatch

pub as_workspaces : Reply → Decoded (List Workspace)
as_workspaces (Reply.workspaces xs) = decoded xs
as_workspaces _ = mismatch

pub as_lineage : Reply → Decoded Lineage
as_lineage (Reply.lineage_of x) = decoded x
as_lineage _ = mismatch

pub as_events : Reply → Decoded (List Event)
as_events (Reply.events xs) = decoded xs
as_events _ = mismatch

-- api.ParseStatusFilter
unfoldable pub parse_status_filter : String → List String
parse_status_filter value =
    if value == "" then [] else keep (λ part. not (part == "")) (map trim_space (split b',' value))

session_row : Host → Session → List String
session_row host s =
    s.id
    ∷ s.status
    ∷ s.attention
    ∷ display_source s
    ∷ display_workspace s
    ∷ first_non_empty (s.status_detail ∷ s.summary ∷ s.title ∷ [])
    ∷ human_duration host.days (time_since host.now s.last_activity_at)
    ∷ []

process_row : Process → List String
process_row p = p.id ∷ itoa p.pid ∷ itoa p.ppid ∷ p.command ∷ p.liveness ∷ p.source ∷ []

workspace_row : Workspace → List String
workspace_row w = w.id ∷ w.kind ∷ w.path ∷ w.branch ∷ w.source ∷ []

pub lineage_row : Session → List String
lineage_row s =
    s.id
    ∷ s.status
    ∷ s.parent_session_id
    ∷ s.root_session_id
    ∷ first_non_empty (s.status_detail ∷ s.summary ∷ s.title ∷ [])
    ∷ []

edge_row : Edge → List String
edge_row e = e.id ∷ e.type ∷ e.from ∷ e.to ∷ []

event_row : Host → Event → List String
event_row host e =
    itoa e.seq ∷ e.type ∷ e.session_id ∷ e.source ∷ e.summary ∷ host.format_time e.observed_at ∷ []

source_row : Source → List String
source_row s =
    s.id
    ∷ s.status
    ∷ s.support_level
    ∷ s.kind
    ∷ join "," s.capabilities
    ∷ join "; " s.diagnostics
    ∷ []

-- The rows behind the heading of `runLineage`.
pub edge_rows : List Edge → List (List String)
unfolding edge_row
edge_rows [] = []
edge_rows (e ∷ es) = ("\nEDGE" ∷ "TYPE" ∷ "FROM" ∷ "TO" ∷ []) ∷ edge_row e ∷ map edge_row es

-- printEvents and printSources
pub print_events : Host → List Event → Output
unfolding event_row
print_events host es = Output.table (
    ("SEQ" ∷ "TYPE" ∷ "SESSION" ∷ "SOURCE" ∷ "SUMMARY" ∷ "OBSERVED" ∷ []) ∷ map (event_row host) es)

pub print_sources : List Source → Output
unfolding source_row
print_sources xs = Output.table (
    ("ID" ∷ "STATUS" ∷ "SUPPORT" ∷ "KIND" ∷ "CAPABILITIES" ∷ "DIAGNOSTICS" ∷ [])
    ∷ map source_row xs)

-- if *asJSON { printJSON(reply) } else { … }
abbrev pub shown : Bool → Reply → Output → Output
shown true reply other = Output.json reply
shown false reply other = other

module _ (host : Host) (remote : Remote) where
  unfoldable pub run_sessions : List String → Prog Output
  unfolding session_row
  run_sessions args = do
    p ←
        parse_or_exit host.parse_int
          (("all", boolean)
            ∷ ("status", text)
            ∷ ("workspace", text)
            ∷ ("source", text)
            ∷ ("json", boolean)
            ∷ [])
          args
    xs ← call_or_die remote as_sessions "sessions/list" (
        some (
          Params.filter (record {
            all = flag_bool "all" p;
            status = parse_status_filter (flag_text "status" "" p);
            workspace = flag_text "workspace" "" p;
            source = flag_text "source" "" p;
          })))
    pure (
        shown (flag_bool "json" p) (Reply.sessions xs) (
          Output.table (
            ("ID" ∷ "STATUS" ∷ "ATTENTION" ∷ "SOURCE" ∷ "WORKSPACE" ∷ "ACTIVITY" ∷ "UPDATED" ∷ [])
            ∷ map (session_row host) xs)))

  unfoldable pub run_processes : List String → Prog Output
  unfolding process_row
  run_processes args = do
    p ← parse_or_exit host.parse_int (("json", boolean) ∷ []) args
    xs ← call_or_die remote as_processes "processes/list" none
    pure (
        shown (flag_bool "json" p) (Reply.processes xs) (
          Output.table (
            ("ID" ∷ "PID" ∷ "PPID" ∷ "COMMAND" ∷ "LIVENESS" ∷ "SOURCE" ∷ []) ∷ map process_row xs)))

  unfoldable pub run_workspaces : List String → Prog Output
  unfolding workspace_row
  run_workspaces args = do
    p ← parse_or_exit host.parse_int (("json", boolean) ∷ []) args
    xs ← call_or_die remote as_workspaces "workspaces/list" none
    pure (
        shown (flag_bool "json" p) (Reply.workspaces xs) (
          Output.table
            (("ID" ∷ "KIND" ∷ "PATH" ∷ "BRANCH" ∷ "SOURCE" ∷ []) ∷ map workspace_row xs)))

  unfoldable pub run_history : List String → Prog Output
  unfolding print_events
  run_history args = do
    p ← parse_or_exit host.parse_int (("since", number) ∷ ("json", boolean) ∷ []) args
    es ← call_or_die remote as_events "events/list" (
        some (Params.query (record { since = flag_int host.parse_int "since" p; limit = pos 100 })))
    pure (shown (flag_bool "json" p) (Reply.events es) (print_events host es))
