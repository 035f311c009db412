-- ===== src/Api/Handle/Survives.antt =====
-- internal/api/handler.go: `Handle`, case by case, and a session that a client reported.
use the_score.Base.{false, String, Option, none, some, ◌==◌, ◌&&◌, ◌||◌, ◌≡◌, ◌≢◌, refl, ap}
use the_score.Model.{Session, Workspace, Edge}
use the_score.Runtime.{Os}
use the_score.Store.{Store}
use the_score.Store.Sessions.{SessionFilter, get_session}
use the_score.Store.Invariant.{IsValid}
use the_score.Api.Reconcile.{Listing, reconcile, is_inferred_process_session}
use the_score.Api.Reconcile.Native.{
  reconcile-get_session, get_session-upsert_workspace, get_session-upsert_edge,
}
use the_score.Api.Handle.{
  Decoded, decoded, malformed, Json, Method, info, shutdown, health, Handler, handle_list_sessions,
  handle_upsert_workspace, handle_upsert_edge, handle_method, handle_read, handle, read_method,
}
use the_score.Api.Handle.Keeps.{if-fst, store-reply_sessions}

module _ (id : String) (x : Session) (native : is_inferred_process_session x ≡ false) where
  abbrev Holds : Store → Type 0
  Holds s = get_session id s ≡ some x

  list_sessions-Holds :
      (os : Os) (listing : Listing) (filter : Decoded SessionFilter) (s : Store)
      → IsValid s
      → Holds s
      → Holds (handle_list_sessions os listing filter s).0
  unfolding handle_list_sessions
  list_sessions-Holds os listing (malformed message) s v h = h
  list_sessions-Holds os listing (decoded filter) s v h =
      rw (store-reply_sessions filter (reconcile os listing s))
        (reconcile-get_session os listing id x s v h native)

  upsert_workspace-Holds :
      (given : Decoded Workspace) (s : Store) → Holds s → Holds (handle_upsert_workspace given s).0
  unfolding handle_upsert_workspace
  upsert_workspace-Holds (malformed message) s h = h
  upsert_workspace-Holds (decoded given) s h =
      if-fst Holds (given.id == "" && given.path == "") _ _ h
        (rw (get_session-upsert_workspace id given s) h)

  upsert_edge-Holds :
      (given : Decoded Edge) (s : Store) → Holds s → Holds (handle_upsert_edge given s).0
  unfolding handle_upsert_edge
  upsert_edge-Holds (malformed message) s h = h
  upsert_edge-Holds (decoded given) s h =
      if-fst Holds (given.from == "" || given.to == "" || given.type == "") _ _ h
        (rw (get_session-upsert_edge id given s) h)

  module _ (handler : Handler) (os : Os) (json : Json) (listing : Listing) (params : String) where
    method-Holds :
        (method : Method) (s : Store)
        → IsValid s
        → method ≢ Method.upsert_session
        → method ≢ Method.remove_session
        → Holds s
        → Holds (handle_method handler os json method listing params s).0
    unfolding handle_method
    method-Holds Method.list_sessions s v up gone h = list_sessions-Holds os listing _ s v h
    method-Holds Method.upsert_session s v up gone h = absurd (up refl)
    method-Holds Method.remove_session s v up gone h = absurd (gone refl)
    method-Holds Method.upsert_workspace s v up gone h = upsert_workspace-Holds _ s h
    method-Holds Method.upsert_edge s v up gone h = upsert_edge-Holds _ s h
    method-Holds info s v up gone h = h
    method-Holds shutdown s v up gone h = h
    method-Holds health s v up gone h = h
    method-Holds Method.get_session s v up gone h = h
    method-Holds Method.list_processes s v up gone h = h
    method-Holds Method.get_process s v up gone h = h
    method-Holds Method.list_workspaces s v up gone h = h
    method-Holds Method.get_workspace s v up gone h = h
    method-Holds Method.get_lineage s v up gone h = h
    method-Holds Method.list_events s v up gone h = h
    method-Holds Method.list_sources s v up gone h = h
    method-Holds Method.doctor s v up gone h = h

    read-Holds :
        (method : Option Method) (name : String) (s : Store)
        → IsValid s
        → method ≢ some Method.upsert_session
        → method ≢ some Method.remove_session
        → Holds s
        → Holds (handle_read handler os json method name listing params s).0
    unfolding handle_read
    read-Holds none name s v up gone h = h
    read-Holds (some method) name s v up gone h =
        method-Holds method s v (λ e. up (ap some e)) (λ e. gone (ap some e)) h

-- A session that a client reported is still there, as it was, after any request that is neither
-- `observations/upsertSession` nor `observations/removeSession`, over any process table.
pub handle-get_session :
    (handler : Handler) (os : Os) (json : Json) (name : String) (listing : Listing)
    (params id : String) (x : Session) (s : Store)
    → IsValid s
    → get_session id s ≡ some x
    → is_inferred_process_session x ≡ false
    → read_method name ≢ some Method.upsert_session
    → read_method name ≢ some Method.remove_session
    → get_session id (handle handler os json name listing params s).0 ≡ some x
unfolding handle
handle-get_session handler os json name listing params id x s v h native up gone =
    read-Holds id x native handler os json listing params (read_method name) name s v up gone h
