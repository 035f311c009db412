-- ===== src/Api/Handle/Refines.antt =====
-- internal/api/handler.go: `Handle`, case by case, and the graph that the store holds.
use the_score.Base.{
  String, Option, none, some, ◌==◌, ◌&&◌, ◌||◌, ◌≡◌, ◌≢◌, refl, ap, ◌∙◌, if◌then◌else◌, Bool-cases,
  inl, inr,
}
use the_score.Model.{Time, Session, Workspace, Edge, zero_session, zero_workspace, zero_edge}
use the_score.Runtime.{Os}
use the_score.Store.{Store, now}
use the_score.Store.Sessions.{fill_session}
use the_score.Store.Workspaces.{fill_workspace}
use the_score.Store.Edges.{fill_edge}
use the_score.Store.Graph.{
  Change, keep, put_session, drop_session, put_workspace, put_edge, graph, change,
}
use the_score.Store.Graph.Refines.{
  graph-upsert_session, graph-remove_session, graph-upsert_workspace, graph-upsert_edge,
}
use the_score.Api.Reconcile.{Listing}
use the_score.Api.Handle.{
  Decoded, decoded, malformed, Json, Method, info, shutdown, health, Handler, decode_params,
  handle_upsert_session, handle_remove_session, handle_upsert_workspace, handle_upsert_edge,
  handle_method, handle_read, handle, read_method,
}

-- The change that a request asks for: one that is refused asks for none.
abbrev session_change : Time → Decoded Session → Change
session_change time (malformed message) = keep
session_change time (decoded given) =
    if given.id == "" then keep else put_session (fill_session time given)

abbrev removal : Decoded String → Change
removal (malformed message) = keep
removal (decoded id) = drop_session id

abbrev workspace_change : Time → Decoded Workspace → Change
workspace_change time (malformed message) = keep
workspace_change time (decoded given) =
    if given.id == "" && given.path == "" then keep else put_workspace (fill_workspace time given)

abbrev edge_change : Time → Decoded Edge → Change
edge_change time (malformed message) = keep
edge_change time (decoded given) =
    if given.from == "" || given.to == "" || given.type == ""
    then keep
    else put_edge (fill_edge time given)

abbrev change_of : Json → Option Method → String → Time → Change
change_of json (some Method.upsert_session) params time =
    session_change time (decode_params zero_session json.session params)
change_of json (some Method.remove_session) params time = removal (decode_params "" json.id params)
change_of json (some Method.upsert_workspace) params time =
    workspace_change time (decode_params zero_workspace json.workspace params)
change_of json (some Method.upsert_edge) params time =
    edge_change time (decode_params zero_edge json.edge params)
change_of json _ params time = keep

upsert_session-Refines :
    (given : Decoded Session) (s : Store)
    → graph (handle_upsert_session given s).0 ≡ change (session_change (now s) given) (graph s)
unfolding handle_upsert_session
upsert_session-Refines (malformed message) s = refl
upsert_session-Refines (decoded given) s =
    let stored = graph-upsert_session given s in
    elim (Bool-cases (given.id == "")) [
      | inl unnamed ↦ rw unnamed refl
      | inr named ↦ rw named (stored ∙ rw named refl)
    ]

remove_session-Refines :
    (id : Decoded String) (s : Store)
    → graph (handle_remove_session id s).0 ≡ change (removal id) (graph s)
unfolding handle_remove_session
remove_session-Refines (malformed message) s = refl
remove_session-Refines (decoded id) s = graph-remove_session id s

upsert_workspace-Refines :
    (given : Decoded Workspace) (s : Store)
    → graph (handle_upsert_workspace given s).0 ≡ change (workspace_change (now s) given) (graph s)
unfolding handle_upsert_workspace
upsert_workspace-Refines (malformed message) s = refl
upsert_workspace-Refines (decoded given) s =
    elim (Bool-cases (given.id == "" && given.path == "")) [
      | inl refused ↦ rw refused refl
      | inr accepted ↦ rw accepted (graph-upsert_workspace given s)
    ]

upsert_edge-Refines :
    (given : Decoded Edge) (s : Store)
    → graph (handle_upsert_edge given s).0 ≡ change (edge_change (now s) given) (graph s)
unfolding handle_upsert_edge
upsert_edge-Refines (malformed message) s = refl
upsert_edge-Refines (decoded given) s =
    elim (Bool-cases (given.from == "" || given.to == "" || given.type == "")) [
      | inl refused ↦ rw refused refl
      | inr accepted ↦ rw accepted (graph-upsert_edge given s)
    ]

module _ (handler : Handler) (os : Os) (json : Json) (listing : Listing) (params : String) where
  method-Refines :
      (method : Method) (s : Store)
      → method ≢ Method.list_sessions
      → graph (handle_method handler os json method listing params s).0
        ≡ change (change_of json (some method) params (now s)) (graph s)
  unfolding handle_method
  method-Refines Method.list_sessions s other = absurd (other refl)
  method-Refines Method.upsert_session s other = upsert_session-Refines _ s
  method-Refines Method.remove_session s other = remove_session-Refines _ s
  method-Refines Method.upsert_workspace s other = upsert_workspace-Refines _ s
  method-Refines Method.upsert_edge s other = upsert_edge-Refines _ s
  method-Refines info s other = refl
  method-Refines shutdown s other = refl
  method-Refines health s other = refl
  method-Refines Method.get_session s other = refl
  method-Refines Method.list_processes s other = refl
  method-Refines Method.get_process s other = refl
  method-Refines Method.list_workspaces s other = refl
  method-Refines Method.get_workspace s other = refl
  method-Refines Method.get_lineage s other = refl
  method-Refines Method.list_events s other = refl
  method-Refines Method.list_sources s other = refl
  method-Refines Method.doctor s other = refl

  read-Refines :
      (method : Option Method) (name : String) (s : Store)
      → method ≢ some Method.list_sessions
      → graph (handle_read handler os json method name listing params s).0
        ≡ change (change_of json method params (now s)) (graph s)
  unfolding handle_read
  read-Refines none name s other = refl
  read-Refines (some method) name s other = method-Refines method s (λ e. other (ap some e))

-- A request other than `sessions/list`, over any process table, makes the one change of the four
-- maps that its method and its parameters ask for, with the defaults filled in at the time of the
-- store's clock: `observations/upsertSession`, `observations/upsertWorkspace` and
-- `observations/upsertEdge` set one entry where they are accepted, `observations/removeSession` clears
-- one, and every other request, a refused one included, leaves the maps as they were.
pub graph-handle :
    (handler : Handler) (os : Os) (json : Json) (name : String) (listing : Listing)
    (params : String) (s : Store)
    → read_method name ≢ some Method.list_sessions
    → graph (handle handler os json name listing params s).0
      ≡ change (change_of json (read_method name) params (now s)) (graph s)
unfolding handle
graph-handle handler os json name listing params s other =
    read-Refines handler os json listing params (read_method name) name s other
