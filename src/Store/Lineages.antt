-- ===== src/Store/Lineages.antt =====
-- internal/store/store.go: `Lineage`.
pub mod Members
pub mod Whole
use the_score.Base.{String, Bool, ◌||◌, List, [], map, ◌==◌, ltb, keep, contains}
use mathlib.Core.List.{flat_map}
use the_score.Base.Sort.{sort}
use the_score.Base.Table.{values}
use the_score.Model.{Session, Workspace, Edge, Lineage}
use the_score.Store.{Store}

-- Whether a session belongs to the lineage of `root`; "" asks for all.
pub in_lineage : String → Session → Bool
in_lineage root session =
    root == ""
    || session.id == root
    || session.root_session_id == root
    || session.parent_session_id == root

pub lineage_sessions : String → Store → List Session
lineage_sessions root s = keep (in_lineage root) (values s.sessions)

pub lineage_edges : String → Store → List Edge
lineage_edges root s =
    let session_set = map (λ (session : Session). session.id) (lineage_sessions root s) in
    keep (λ edge. root == "" || contains edge.from session_set || contains edge.to session_set)
      (values s.edges)

unfoldable lineage_workspaces : String → Store → List Workspace
lineage_workspaces root s =
    let workspace_set =
      flat_map (λ (session : Session). session.workspace_ids) (lineage_sessions root s) in
    values (keep (λ entry. contains entry.0 workspace_set) s.workspaces)

pub lineage : String → Store → Lineage
lineage root s = record {
  root_session_id = root;
  sessions = sort (λ a b. ltb a.started_at b.started_at) (lineage_sessions root s);
  processes = [];
  workspaces = lineage_workspaces root s;
  edges = lineage_edges root s;
}
