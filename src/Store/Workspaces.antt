-- ===== src/Store/Workspaces.antt =====
-- internal/store/store.go: workspaces.
pub mod Laws
use the_score.Base.{String, Bool, List, Option, ◌==◌, if◌then◌else◌, is_some}
use the_score.Base.Sort.{sort}
use the_score.Base.Table.{get, put, values}
use the_score.Strings.{◌⧺◌, less}
use the_score.Model.{Time, Workspace, Event, zero_event}
use the_score.Model.Confidence
use the_score.Store.{Store, now, tick, or_else, or_time}
use the_score.Store.Log.{append_event}

-- The defaults of `UpsertWorkspace`.
unfoldable pub fill_workspace : Time → Workspace → Workspace
fill_workspace time workspace = record workspace {
  id = or_else workspace.id ("workspace:" ⧺ workspace.path);
  kind = or_else workspace.kind "workspace";
  source = or_else workspace.source "native";
  confidence = or_else workspace.confidence Confidence.unknown;
  observed_at = or_time workspace.observed_at time;
}

unfoldable pub workspace_event : Bool → Workspace → Event
workspace_event existed workspace = record zero_event {
  type = if existed then "workspace.upserted" else "workspace.discovered";
  workspace_id = workspace.id;
  summary = workspace.path;
  source = workspace.source;
}

unfoldable pub upsert_workspace : Workspace → Store → Store × Workspace
upsert_workspace workspace s =
    let filled = fill_workspace (now s) workspace in
    let existed = is_some (get filled.id s.workspaces) in
    let stored = record (tick s) { workspaces = put filled.id filled s.workspaces } in
    ((append_event (workspace_event existed filled) stored).0, filled)

-- `none` is ErrNotFound
unfoldable pub get_workspace : String → Store → Option Workspace
get_workspace id s = get id s.workspaces

unfoldable pub list_workspaces : Store → List Workspace
list_workspaces s = sort (λ a b. less a.path b.path) (values s.workspaces)
