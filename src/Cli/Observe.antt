-- ===== src/Cli/Observe.antt =====
-- cmd/score/main.go: `score observe-session`.
pub mod Stored
use the_score.Base.{String, List, [], ◌∷◌, Option, none, some, ◌==◌, if◌then◌else◌, ℤ}
use the_score.Strings.{◌⧺◌}
use the_score.Model.{Time, Session, Workspace, Edge, zero_session, zero_workspace, zero_edge}
use the_score.Model.Confidence
use the_score.Api.Handle.{Reply, decoded}
use the_score.Client.{Params}
use the_score.Cli.{
  Prog, returned, exited, then_with, ◌>>=◌, ◌>>◌, pure, die, Output, Remote, call_or_die,
}
use the_score.Cli.Flags.{Kind, boolean, text, Parsed, parse_or_exit, flag_text, flag_bool}

-- The flags of the command.
pub record Observed : Type 0 where
  pub id : String
  pub status : String
  pub source : String
  pub workspace : String
  pub activity : String
  pub title : String
  pub parent : String
  pub root : String

-- The session that is sent; `time` is the reading of the clock.
unfoldable pub observed_session : Time → Observed → Session
observed_session time o = record zero_session {
  id = o.id;
  status = o.status;
  status_detail = o.activity;
  title = o.title;
  source = o.source;
  cwd = o.workspace;
  parent_session_id = o.parent;
  root_session_id = o.root;
  workspace_ids = if o.workspace == "" then [] else ("workspace:" ⧺ o.workspace) ∷ [];
  confidence = Confidence.high;
  last_activity_at = time;
}

-- The workspace and the edge that `observe-session` and `run` send.
unfoldable pub sent_workspace : (workspace id source : String) → Workspace
sent_workspace workspace id source = record zero_workspace {
  id = "workspace:" ⧺ workspace;
  kind = "workspace";
  path = workspace;
  session_ids = id ∷ [];
  source = source;
  confidence = Confidence.high;
}

unfoldable pub sent_edge : (id parent source : String) → Edge
sent_edge id parent source = record zero_edge {
  from = id;
  to = parent;
  type = "spawned_by";
  source = source;
  confidence = Confidence.high;
}

module _ (remote : Remote) where
  unfoldable pub upsert_session : Session → Prog Reply
  upsert_session x =
      call_or_die remote (λ reply. decoded reply) "observations/upsertSession"
        (some (Params.session x))

  unfoldable pub upsert_workspace : Workspace → Prog Reply
  upsert_workspace w =
      call_or_die remote (λ reply. decoded reply) "observations/upsertWorkspace"
        (some (Params.workspace w))

  unfoldable pub upsert_edge : Edge → Prog Reply
  upsert_edge e =
      call_or_die remote (λ reply. decoded reply) "observations/upsertEdge" (some (Params.edge e))

  -- if value != "" { … }
  abbrev pub when_set : String → Prog Reply → Reply → Prog Reply
  when_set value m reply = if value == "" then pure reply else m

  -- The calls that follow the report of a session.
  unfoldable pub report_rest : (workspace id parent source : String) → Reply → Prog Reply
  report_rest workspace id parent source reply = do
    when_set workspace (upsert_workspace (sent_workspace workspace id source)) reply
    when_set parent (upsert_edge (sent_edge id parent source)) reply
    pure reply

  -- The calls of the command, and the session that the first one returned.
  unfoldable pub observe : Time → Observed → Prog Reply
  observe time o = do
    reply ← upsert_session (observed_session time o)
    report_rest o.workspace o.id o.parent o.source reply

  -- `--id` is required.
  unfoldable pub observe_or_die : Time → Observed → Prog Reply
  observe_or_die time o = if o.id == "" then die "--id is required" else observe time o

unfoldable pub read_observed : Parsed → Observed
read_observed p = record {
  id = flag_text "id" "" p;
  status = flag_text "status" "working" p;
  source = flag_text "source" "native" p;
  workspace = flag_text "workspace" "" p;
  activity = flag_text "activity" "" p;
  title = flag_text "title" "" p;
  parent = flag_text "parent" "" p;
  root = flag_text "root" "" p;
}

-- The id of the session in the reply.
replied_id : Reply → String
replied_id (Reply.session x) = x.id
replied_id _ = ""

unfoldable pub run_observe_session : Remote → (String → Option ℤ) → Time → List String → Prog Output
unfolding replied_id
run_observe_session remote parse_int time args = do
  p ←
      parse_or_exit parse_int
        (("id", text)
          ∷ ("status", text)
          ∷ ("source", text)
          ∷ ("workspace", text)
          ∷ ("activity", text)
          ∷ ("title", text)
          ∷ ("parent", text)
          ∷ ("root", text)
          ∷ ("json", boolean)
          ∷ [])
        args
  reply ← observe_or_die remote time (read_observed p)
  pure (if flag_bool "json" p then Output.json reply else Output.line (replied_id reply))
