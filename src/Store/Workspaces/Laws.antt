-- ===== src/Store/Workspaces/Laws.antt =====
-- What `UpsertWorkspace` does to the graph.
use the_score.Base.{String, some, ◌≡◌, ◌==◌, if◌then◌else◌, is_some}
use the_score.Base.Table.{get, put, get-put}
use the_score.Model.{Workspace}
use the_score.Store.{Store, now, tick}
use the_score.Store.Log.Frame.{SameGraph, append_event-SameGraph}
use the_score.Store.Workspaces.{fill_workspace, workspace_event, upsert_workspace, get_workspace}

-- The graph after `UpsertWorkspace`: one workspace more, and the rest as it was.
pub graph-upsert_workspace :
    (workspace : Workspace) (s : Store)
    → SameGraph
        (record s {
          workspaces =
              put
                (fill_workspace (now s) workspace).id
                (fill_workspace (now s) workspace)
                s.workspaces;
        })
        (upsert_workspace workspace s).0
unfolding upsert_workspace
graph-upsert_workspace workspace s =
    let filled = fill_workspace (now s) workspace in
    let same =
      append_event-SameGraph (workspace_event (is_some (get filled.id s.workspaces)) filled)
        (record (tick s) { workspaces = put filled.id filled s.workspaces }) in
    record {
      sessions = same.sessions;
      workspaces = same.workspaces;
      edges = same.edges;
      sources = same.sources;
    }

-- `GetWorkspace` after `UpsertWorkspace`: the filled-in workspace under its id, which is made from
-- the path where there is none, and what was there before under any other id.
pub get_workspace-upsert_workspace :
    (workspace : Workspace) (id : String) (s : Store)
    → get_workspace id (upsert_workspace workspace s).0 ≡ (
        if (fill_workspace (now s) workspace).id == id
        then some (fill_workspace (now s) workspace)
        else get_workspace id s)
unfolding get_workspace
get_workspace-upsert_workspace workspace id s =
    let filled = fill_workspace (now s) workspace in
    rw (graph-upsert_workspace workspace s).workspaces (get-put filled.id id filled s.workspaces)
