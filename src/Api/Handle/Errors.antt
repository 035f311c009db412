-- ===== src/Api/Handle/Errors.antt =====
-- internal/api/handler.go: `Handle`, case by case, and the store behind an error.
use the_score.Base.{
  Bool, true, false, String, Option, none, some, ◌==◌, ◌&&◌, ◌||◌, ◌≡◌, refl, if◌then◌else◌, ℤ,
}
use the_score.Model.{Session, Workspace, Edge}
use the_score.Runtime.{Os}
use the_score.Store.{Store}
use the_score.Store.Sessions.{SessionFilter}
use the_score.Api.Reconcile.{Listing, listed, failed, reconcile}
use the_score.Api.Handle.{
  Decoded, decoded, malformed, Json, Method, info, shutdown, health, Handler, Outcome, error,
  result, reply_sessions, handle_list_sessions, handle_upsert_session, handle_remove_session,
  handle_upsert_workspace, handle_upsert_edge, handle_method, handle_read, handle, read_method,
}

-- A step on the store whose error outcomes change nothing.
abbrev Harmless : Store → Store × Outcome → Type 0
Harmless s p = (code : ℤ) (message : String) → p.1 ≡ error code message → p.0 ≡ s

same-Harmless : (s : Store) (o : Outcome) → Harmless s (s, o)
same-Harmless s o code message e = refl

result-Harmless : (s t : Store) (r : _) → Harmless s (t, result r)
result-Harmless s t r code message e = cc e

if-Harmless :
    (b : Bool) (s : Store) (p q : Store × Outcome)
    → Harmless s p
    → Harmless s q
    → Harmless s (if b then p else q)
if-Harmless true s p q x y = x
if-Harmless false s p q x y = y

list_sessions-Harmless :
    (os : Os) (listing : Listing) (filter : Decoded SessionFilter) (s : Store)
    → Harmless s (handle_list_sessions os listing filter s)
unfolding handle_list_sessions reply_sessions reconcile
list_sessions-Harmless os listing (malformed message) s = same-Harmless s _
list_sessions-Harmless os (failed why) (decoded filter) s = same-Harmless s _
list_sessions-Harmless os (listed procs) (decoded filter) s = result-Harmless s _ _

upsert_session-Harmless :
    (given : Decoded Session) (s : Store) → Harmless s (handle_upsert_session given s)
unfolding handle_upsert_session
upsert_session-Harmless (malformed message) s = same-Harmless s _
upsert_session-Harmless (decoded given) s =
    if-Harmless (given.id == "") s _ _ (same-Harmless s _) (result-Harmless s _ _)

remove_session-Harmless :
    (id : Decoded String) (s : Store) → Harmless s (handle_remove_session id s)
unfolding handle_remove_session
remove_session-Harmless (malformed message) s = same-Harmless s _
remove_session-Harmless (decoded id) s = result-Harmless s _ _

upsert_workspace-Harmless :
    (given : Decoded Workspace) (s : Store) → Harmless s (handle_upsert_workspace given s)
unfolding handle_upsert_workspace
upsert_workspace-Harmless (malformed message) s = same-Harmless s _
upsert_workspace-Harmless (decoded given) s =
    if-Harmless (given.id == "" && given.path == "") s _ _ (same-Harmless s _)
      (result-Harmless s _ _)

upsert_edge-Harmless : (given : Decoded Edge) (s : Store) → Harmless s (handle_upsert_edge given s)
unfolding handle_upsert_edge
upsert_edge-Harmless (malformed message) s = same-Harmless s _
upsert_edge-Harmless (decoded given) s =
    if-Harmless (given.from == "" || given.to == "" || given.type == "") s _ _ (same-Harmless s _)
      (result-Harmless s _ _)

module _ (handler : Handler) (os : Os) (json : Json) (listing : Listing) (params : String) where
  method-Harmless :
      (method : Method) (s : Store)
      → Harmless s (handle_method handler os json method listing params s)
  unfolding handle_method
  method-Harmless Method.list_sessions s = list_sessions-Harmless os listing _ s
  method-Harmless Method.upsert_session s = upsert_session-Harmless _ s
  method-Harmless Method.remove_session s = remove_session-Harmless _ s
  method-Harmless Method.upsert_workspace s = upsert_workspace-Harmless _ s
  method-Harmless Method.upsert_edge s = upsert_edge-Harmless _ s
  method-Harmless info s = same-Harmless s _
  method-Harmless shutdown s = same-Harmless s _
  method-Harmless health s = same-Harmless s _
  method-Harmless Method.get_session s = same-Harmless s _
  method-Harmless Method.list_processes s = same-Harmless s _
  method-Harmless Method.get_process s = same-Harmless s _
  method-Harmless Method.list_workspaces s = same-Harmless s _
  method-Harmless Method.get_workspace s = same-Harmless s _
  method-Harmless Method.get_lineage s = same-Harmless s _
  method-Harmless Method.list_events s = same-Harmless s _
  method-Harmless Method.list_sources s = same-Harmless s _
  method-Harmless Method.doctor s = same-Harmless s _

  read-Harmless :
      (method : Option Method) (name : String) (s : Store)
      → Harmless s (handle_read handler os json method name listing params s)
  unfolding handle_read
  read-Harmless none name s = same-Harmless s _
  read-Harmless (some method) name s = method-Harmless method s

-- A request that is answered with an error has changed nothing: not the graph, the log or the clock.
pub handle-error :
    (handler : Handler) (os : Os) (json : Json) (name : String) (listing : Listing)
    (params : String) (s : Store) (code : ℤ) (message : String)
    → (handle handler os json name listing params s).1 ≡ error code message
    → (handle handler os json name listing params s).0 ≡ s
unfolding handle
handle-error handler os json name listing params s code message e =
    read-Harmless handler os json listing params (read_method name) name s code message e
