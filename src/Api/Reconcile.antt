-- ===== src/Api/Reconcile.antt =====
-- internal/api/handler.go: `reconcileProcessSessions` and `isInferredProcessSession`. A map from a
-- Go type that is only read back by key is an association list.
pub mod Valid
pub mod Native
pub mod Seen
pub mod Shows
pub mod Live
pub mod Reported
pub mod Spawned
use the_score.Base.{
  Bool, true, false, not, ◌&&◌, ◌||◌, String, List, [], ◌∷◌, ◌++◌, Option, none, some, ◌==◌,
  if◌then◌else◌, starts_with, contains, ℤ, eqb_ℤ,
}
use the_score.Strings.{◌⧺◌}
use the_score.Model.{
  Time, Session, Process, Workspace, Edge, zero_workspace, zero_edge, Value, Fields, field, end,
  object, bool,
}
use the_score.Model.Confidence
use the_score.Runtime.{Os}
use the_score.Runtime.Infer.{infer_agent_process_session}
use the_score.Store.{Store, now, tick}
use the_score.Store.Sessions.{
  SessionFilter, upsert_session, remove_session, get_session, list_sessions,
}
use the_score.Store.Workspaces.{upsert_workspace}
use the_score.Store.Edges.{upsert_edge, list_edges, remove_edge}

-- v, ok := m[key], for a `map[string]interface{}`
unfoldable pub find_field : String → Fields → Option Value
find_field key end = none
find_field key (field k v rest) = if k == key then some v else find_field key rest

-- inferred, _ := v.(bool)
unfoldable pub as_bool : Option Value → Bool
as_bool (some (bool b)) = b
as_bool _ = false

unfoldable pub inferred_in : Option Value → Bool
unfolding as_bool find_field
inferred_in (some (object meta)) = as_bool (find_field "inferred" meta)
inferred_in _ = false

unfoldable pub is_inferred_process_session : Session → Bool
is_inferred_process_session session = inferred_in (find_field "process" session.meta)

-- What `ListProcesses` returns: the processes, or the text of an error.
pub data Listing : Type 0 where
  listed : List Process → Listing
  failed : String → Listing

-- The variables of the first loop, with the store. `pids` is `pidToSession`.
pub record Scan : Type 0 where
  pub seen : List String
  pub pids : List (ℤ × String)
  pub inferred : List Process
  pub store : Store

-- pidToSession[pid]
unfoldable pub session_of : ℤ → List (ℤ × String) → String
session_of pid [] = ""
session_of pid ((p, id) ∷ rest) = if eqb_ℤ p pid then id else session_of pid rest

abbrev Found : Type 0
Found = Process × Session

-- if session.CWD == "" { if cwd, ok := LookupProcessCWD(proc.PID); ok { … } }
unfoldable pub with_cwd : Os → Process → Session → Found
with_cwd os proc session = elim (os.lookup_cwd proc.pid) [
  | none ↦ (proc, session)
  | some cwd ↦
      if session.cwd == ""
      then (
        record proc { cwd = cwd },
        record session {
          cwd = cwd;
          workspace_roots = cwd ∷ [];
          workspace_ids = ("workspace:" ⧺ cwd) ∷ [];
        },
      )
      else (proc, session)
]

unfoldable pub session_workspace : Time → Session → Workspace
session_workspace time session = record zero_workspace {
  id = "workspace:" ⧺ session.cwd;
  kind = "workspace";
  path = session.cwd;
  session_ids = session.id ∷ [];
  source = session.source;
  confidence = Confidence.low;
  observed_at = time;
}

-- The end of a round of the first loop: the session is stored, and its workspace.
unfoldable pub admit : Time → Process → Session → Scan → Scan
admit time proc session st =
    let stored = (upsert_session session st.store).0 in
    record {
      seen = session.id ∷ st.seen;
      pids = (proc.pid, session.id) ∷ st.pids;
      inferred = st.inferred ++ proc ∷ [];
      store =
          if session.cwd == ""
          then stored
          else (upsert_workspace (session_workspace time session) stored).0;
    }

-- A session that a client reported wins over the process; one that was inferred before keeps the
-- time at which it was first seen.
unfoldable pub admit_over : Time → Process → Session → Option Session → Scan → Scan
admit_over time proc session none st = admit time proc session st
admit_over time proc session (some existing) st =
    if is_inferred_process_session existing
    then admit time proc (record session { started_at = existing.started_at }) st
    else st

-- A round of the first loop, with what `InferAgentProcessSession` says of the process.
unfoldable pub scan_found : Os → Time → Process → Option Session → Scan → Scan
scan_found os time proc none st = st
scan_found os time proc (some session) st =
    let found = with_cwd os proc session in
    admit_over time found.0 found.1 (get_session found.1.id st.store) st

unfoldable pub scan_process : Os → Time → Process → Scan → Scan
scan_process os time proc st = scan_found os time proc (infer_agent_process_session os proc time) st

unfoldable pub scan_processes : Os → Time → List Process → Scan → Scan
scan_processes os time [] st = st
scan_processes os time (proc ∷ procs) st =
    scan_processes os time procs (scan_process os time proc st)

-- parent.RootSessionID, if there is one, and else the parent's id
unfoldable pub root_below : String → Option Session → String
root_below parent_id none = parent_id
root_below parent_id (some parent) =
    if parent.root_session_id == "" then parent_id else parent.root_session_id

-- The child is stored again below its parent, unless a client has reported it.
unfoldable pub adopt : String → Option Session → Store → Store
adopt parent_id none s = s
adopt parent_id (some child) s =
    let placed = record child {
      parent_session_id = parent_id;
      root_session_id = root_below parent_id (get_session parent_id s);
    } in
    if is_inferred_process_session child then (upsert_session placed s).0 else s

abbrev pub edge_prefix : String
edge_prefix = "process:spawned_by:"

unfoldable pub process_edge : Time → String → String → Edge
process_edge time child_id parent_id = record zero_edge {
  id = edge_prefix ⧺ child_id ⧺ "->" ⧺ parent_id;
  from = child_id;
  to = parent_id;
  type = "spawned_by";
  source = "process";
  confidence = Confidence.low;
  observed_at = time;
}

-- The store with `seenEdges`.
pub record Linked : Type 0 where
  pub seen_edges : List String
  pub store : Store

-- One round of the second loop.
unfoldable pub link_process : Time → List (ℤ × String) → Process → Linked → Linked
link_process time pids proc st =
    let parent_id = session_of proc.ppid pids in
    let child_id = session_of proc.pid pids in
    let edge = process_edge time child_id parent_id in
    if parent_id == "" || child_id == "" then st else record {
      seen_edges = edge.id ∷ st.seen_edges;
      store = (upsert_edge edge (adopt parent_id (get_session child_id st.store) st.store)).0;
    }

unfoldable pub link_processes : Time → List (ℤ × String) → List Process → Linked → Linked
link_processes time pids [] st = st
link_processes time pids (proc ∷ procs) st =
    link_processes time pids procs (link_process time pids proc st)

-- The third loop: inferred sessions whose process is gone.
unfoldable pub is_stale : List String → Session → Bool
is_stale seen session = is_inferred_process_session session && not (contains session.id seen)

unfoldable pub sweep_sessions : List String → List Session → Store → Store
sweep_sessions seen [] s = s
sweep_sessions seen (session ∷ rest) s =
    sweep_sessions seen rest (if is_stale seen session then (remove_session session.id s).0 else s)

-- The fourth loop: edges between processes that were not seen again.
unfoldable pub is_stale_edge : List String → Edge → Bool
is_stale_edge seen edge = starts_with edge.id edge_prefix && not (contains edge.id seen)

unfoldable pub sweep_edges : List String → List Edge → Store → Store
sweep_edges seen [] s = s
sweep_edges seen (edge ∷ rest) s =
    sweep_edges seen rest (if is_stale_edge seen edge then (remove_edge edge.id s).0 else s)

abbrev pub all_sessions : SessionFilter
all_sessions = record { all = true; status = []; workspace = ""; source = "" }

abbrev pub start_scan : Store → Scan
start_scan s = record { seen = []; pids = []; inferred = []; store = tick s }

-- The loops of `reconcileProcessSessions`, over the processes that were listed.
unfoldable pub reconcile_listed : Os → List Process → Store → Store
reconcile_listed os processes s =
    let scan = scan_processes os (now s) processes (start_scan s) in
    let linked =
      link_processes (now s) scan.pids scan.inferred
        (record { seen_edges = []; store = scan.store }) in
    let swept = sweep_sessions scan.seen (list_sessions all_sessions linked.store) linked.store in
    sweep_edges linked.seen_edges (list_edges swept) swept

-- The store afterwards, and the error.
unfoldable pub reconcile : Os → Listing → Store → Store × Option String
reconcile os (failed message) s = (s, some message)
reconcile os (listed processes) s = (reconcile_listed os processes s, none)
