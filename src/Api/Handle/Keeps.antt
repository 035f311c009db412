-- ===== src/Api/Handle/Keeps.antt =====
-- internal/api/handler.go: `Handle`, case by case, and the invariant of the store.
use the_score.Base.{
  Bool, true, false, String, Option, none, some, ◌==◌, ◌&&◌, ◌||◌, ◌≡◌, refl, if◌then◌else◌,
}
use the_score.Model.{Session, Workspace, Edge}
use the_score.Runtime.{Os}
use the_score.Store.{Store}
use the_score.Store.Sessions.{SessionFilter}
use the_score.Store.Invariant.{
  IsValid, upsert_session-IsValid, remove_session-IsValid, upsert_workspace-IsValid,
  upsert_edge-IsValid,
}
use the_score.Api.Reconcile.{Listing, reconcile}
use the_score.Api.Reconcile.Valid.{reconcile-IsValid}
use the_score.Api.Handle.{
  Decoded, decoded, malformed, Json, Method, info, shutdown, health, Handler, reply_sessions,
  handle_list_sessions, handle_upsert_session, handle_remove_session, handle_upsert_workspace,
  handle_upsert_edge, handle_method, handle_read, handle, read_method,
}

-- A pair chosen by a test has the property that both choices have.
pub if-fst :
    {A : Type 0} (P : Store → Type 0) (b : Bool) (p q : Store × A)
    → P p.0
    → P q.0
    → P (if b then p else q).0
if-fst P true p q x y = x
if-fst P false p q x y = y

pub store-reply_sessions :
    (filter : SessionFilter) (p : Store × Option String) → (reply_sessions filter p).0 ≡ p.0
unfolding reply_sessions
store-reply_sessions filter (s, none) = refl
store-reply_sessions filter (s, some message) = refl

list_sessions-IsValid :
    (os : Os) (listing : Listing) (filter : Decoded SessionFilter) (s : Store)
    → IsValid s
    → IsValid (handle_list_sessions os listing filter s).0
unfolding handle_list_sessions
list_sessions-IsValid os listing (malformed message) s v = v
list_sessions-IsValid os listing (decoded filter) s v =
    rw (store-reply_sessions filter (reconcile os listing s)) (reconcile-IsValid os listing s v)

handle_upsert_session-IsValid :
    (given : Decoded Session) (s : Store) → IsValid s → IsValid (handle_upsert_session given s).0
unfolding handle_upsert_session
handle_upsert_session-IsValid (malformed message) s v = v
handle_upsert_session-IsValid (decoded given) s v =
    if-fst IsValid (given.id == "") _ _ v (upsert_session-IsValid s v given)

handle_remove_session-IsValid :
    (id : Decoded String) (s : Store) → IsValid s → IsValid (handle_remove_session id s).0
unfolding handle_remove_session
handle_remove_session-IsValid (malformed message) s v = v
handle_remove_session-IsValid (decoded id) s v = remove_session-IsValid s v id

handle_upsert_workspace-IsValid :
    (given : Decoded Workspace) (s : Store)
    → IsValid s
    → IsValid (handle_upsert_workspace given s).0
unfolding handle_upsert_workspace
handle_upsert_workspace-IsValid (malformed message) s v = v
handle_upsert_workspace-IsValid (decoded given) s v =
    if-fst IsValid (given.id == "" && given.path == "") _ _ v (upsert_workspace-IsValid s v given)

handle_upsert_edge-IsValid :
    (given : Decoded Edge) (s : Store) → IsValid s → IsValid (handle_upsert_edge given s).0
unfolding handle_upsert_edge
handle_upsert_edge-IsValid (malformed message) s v = v
handle_upsert_edge-IsValid (decoded given) s v =
    if-fst IsValid (given.from == "" || given.to == "" || given.type == "") _ _ v
      (upsert_edge-IsValid s v given)

module _ (handler : Handler) (os : Os) (json : Json) (listing : Listing) (params : String) where
  handle_method-IsValid :
      (method : Method) (s : Store)
      → IsValid s
      → IsValid (handle_method handler os json method listing params s).0
  unfolding handle_method
  handle_method-IsValid Method.list_sessions s v = list_sessions-IsValid os listing _ s v
  handle_method-IsValid Method.upsert_session s v = handle_upsert_session-IsValid _ s v
  handle_method-IsValid Method.remove_session s v = handle_remove_session-IsValid _ s v
  handle_method-IsValid Method.upsert_workspace s v = handle_upsert_workspace-IsValid _ s v
  handle_method-IsValid Method.upsert_edge s v = handle_upsert_edge-IsValid _ s v
  handle_method-IsValid info s v = v
  handle_method-IsValid shutdown s v = v
  handle_method-IsValid health s v = v
  handle_method-IsValid Method.get_session s v = v
  handle_method-IsValid Method.list_processes s v = v
  handle_method-IsValid Method.get_process s v = v
  handle_method-IsValid Method.list_workspaces s v = v
  handle_method-IsValid Method.get_workspace s v = v
  handle_method-IsValid Method.get_lineage s v = v
  handle_method-IsValid Method.list_events s v = v
  handle_method-IsValid Method.list_sources s v = v
  handle_method-IsValid Method.doctor s v = v

  handle_read-IsValid :
      (method : Option Method) (name : String) (s : Store)
      → IsValid s
      → IsValid (handle_read handler os json method name listing params s).0
  unfolding handle_read
  handle_read-IsValid none name s v = v
  handle_read-IsValid (some method) name s v = handle_method-IsValid method s v

-- Every request, of any method, with any parameters and over any process table, leaves a valid store
-- valid.
pub handle-IsValid :
    (handler : Handler) (os : Os) (json : Json) (name : String) (listing : Listing)
    (params : String) (s : Store)
    → IsValid s
    → IsValid (handle handler os json name listing params s).0
unfolding handle
handle-IsValid handler os json name listing params s v =
    handle_read-IsValid handler os json listing params (read_method name) name s v
