-- ===== src/Api/Handle.antt =====
-- internal/api/handler.go: `Handle` and its helpers. The parameters of a request are the text that
-- the client sent; how package encoding/json reads them is a parameter of the model.
pub mod Keeps
pub mod Survives
pub mod Errors
pub mod Accepts
pub mod Answers
pub mod Refines
use the_score.Base.{
  ℕ, Bool, true, false, ◌&&◌, ◌||◌, String, List, [], ◌∷◌, Option, none, some, ◌==◌, if◌then◌else◌,
  ℤ, pos, negsuc,
}
use the_score.Strings.{◌⧺◌}
use the_score.Model.{
  Time, Session, Process, Workspace, Edge, Event, Source, Lineage, zero_session, zero_workspace,
  zero_edge,
}
use the_score.Runtime.{Os}
use the_score.Store.{Store}
use the_score.Store.Log
use the_score.Store.Sessions
use the_score.Store.Sessions.{SessionFilter}
use the_score.Store.Workspaces
use the_score.Store.Edges
use the_score.Store.Sources
use the_score.Store.Sources.{get_source}
use the_score.Store.Lineages.{lineage}
use the_score.Api.Reconcile.{Listing, listed, failed, reconcile}

-- What `json.Unmarshal` makes of a text: a value, or the text of an error.
pub data Decoded {ℓ} (A : Type ℓ) : Type ℓ where
  decoded : A → Decoded A
  malformed : String → Decoded A

-- The parameters of `events/list`.
pub record EventQuery : Type 0 where
  pub since : ℤ
  pub limit : ℤ

-- `json.Unmarshal` into the types that the handler decodes: `id` into the structs with an `id` field,
-- `session_id` into that with `sessionId`, `since` into that of a subscription.
pub record Json : Type 0 where
  pub filter : String → Decoded SessionFilter
  pub id : String → Decoded String
  pub session_id : String → Decoded String
  pub query : String → Decoded EventQuery
  pub session : String → Decoded Session
  pub workspace : String → Decoded Workspace
  pub edge : String → Decoded Edge
  pub since : String → Decoded ℤ

-- The methods of the API.
pub data Method : Type 0 where
  info shutdown health : Method
  list_sessions get_session list_processes get_process list_workspaces get_workspace : Method
  get_lineage list_events list_sources doctor : Method
  upsert_session remove_session upsert_workspace upsert_edge : Method

-- The cases of the `switch`; `none` is its default.
unfoldable pub read_method : String → Option Method
read_method name =
    if name == "daemon/info"
    then some info
    else if name == "daemon/shutdown"
    then some shutdown
    else if name == "health/check"
    then some health
    else if name == "sessions/list"
    then some Method.list_sessions
    else if name == "sessions/get"
    then some Method.get_session
    else if name == "processes/list"
    then some Method.list_processes
    else if name == "processes/get"
    then some Method.get_process
    else if name == "workspaces/list"
    then some Method.list_workspaces
    else if name == "workspaces/get"
    then some Method.get_workspace
    else if name == "lineage/get"
    then some Method.get_lineage
    else if name == "events/list"
    then some Method.list_events
    else if name == "sources/list"
    then some Method.list_sources
    else if name == "sources/doctor"
    then some Method.doctor
    else if name == "observations/upsertSession"
    then some Method.upsert_session
    else if name == "observations/removeSession"
    then some Method.remove_session
    else if name == "observations/upsertWorkspace"
    then some Method.upsert_workspace
    else if name == "observations/upsertEdge"
    then some Method.upsert_edge
    else none

-- What a request returns; `started_at` of `daemon/info` stands for its constant fields and the pid.
pub data Reply : Type 0 where
  daemon : (pid : ℤ) (started_at : Time) → Reply
  stopping healthy subscribed : Reply
  sessions : List Session → Reply
  session : Session → Reply
  processes : List Process → Reply
  process : Process → Reply
  workspaces : List Workspace → Reply
  workspace : Workspace → Reply
  lineage_of : Lineage → Reply
  events : List Event → Reply
  sources : List Source → Reply
  source : Source → Reply
  removed : Bool → Reply
  edge : Edge → Reply

pub data Outcome : Type 0 where
  result : Reply → Outcome
  error : (code : ℤ) (message : String) → Outcome

abbrev pub method_not_found_code : ℤ
method_not_found_code = negsuc 32600

abbrev invalid_params_code : ℤ
invalid_params_code = negsuc 32601

abbrev internal_code : ℤ
internal_code = negsuc 32602

abbrev not_found_code : ℤ
not_found_code = pos 404

abbrev pub invalid_params : String → Outcome
invalid_params message = error invalid_params_code message

abbrev internal_err : String → Outcome
internal_err message = error internal_code message

abbrev pub not_found : String → String → Outcome
not_found kind id = error not_found_code (kind ⧺ " not found: " ⧺ id)

-- The fields of a handler that do not change while it serves, and the pid of the daemon.
pub record Handler : Type 0 where
  pub started_at : Time
  pub pid : ℤ
  -- h.shutdown != nil
  pub can_shut_down : Bool

-- The parameters that are absent leave the zero value that the target had.
unfoldable pub decode_params {ℓ} : {A : Type ℓ} → A → (String → Decoded A) → String → Decoded A
decode_params zero unmarshal params =
    if params == "" || params == "null" then decoded zero else unmarshal params

abbrev pub no_filter : SessionFilter
no_filter = record { all = false; status = []; workspace = ""; source = "" }

abbrev pub no_query : EventQuery
no_query = record { since = pos 0; limit = pos 0 }

unfoldable pub find_process : String → List Process → Option Process
find_process id [] = none
find_process id (proc ∷ procs) = if proc.id == id then some proc else find_process id procs

unfoldable pub or_not_found {ℓ} : {A : Type ℓ} → (A → Reply) → String → String → Option A → Outcome
or_not_found reply kind id none = not_found kind id
or_not_found reply kind id (some a) = result (reply a)

pub reply_sessions : SessionFilter → Store × Option String → Store × Outcome
reply_sessions filter (s, some message) = (s, internal_err message)
reply_sessions filter (s, none) = (s, result (sessions (Sessions.list_sessions filter s)))

pub handle_list_sessions : Os → Listing → Decoded SessionFilter → Store → Store × Outcome
unfolding reply_sessions
handle_list_sessions os listing (malformed message) s = (s, invalid_params message)
handle_list_sessions os listing (decoded filter) s = reply_sessions filter (reconcile os listing s)

reply_processes : Listing → Outcome
reply_processes (failed message) = internal_err message
reply_processes (listed procs) = result (processes procs)

reply_process : String → Listing → Outcome
unfolding find_process or_not_found
reply_process id (failed message) = internal_err message
reply_process id (listed procs) = or_not_found process "process" id (find_process id procs)

-- A request that looks something up by its id.
unfoldable pub by_id : (String → Outcome) → Decoded String → Outcome
by_id look (malformed message) = invalid_params message
by_id look (decoded id) = look id

reply_events : Store → Decoded EventQuery → Outcome
reply_events s (malformed message) = invalid_params message
reply_events s (decoded query) = result (events (Log.list_events query.since query.limit s))

reply_doctor : Store → String → Outcome
unfolding or_not_found
reply_doctor s id =
    if id == ""
    then result (sources (Sources.list_sources s))
    else or_not_found source "source" id (get_source id s)

unfoldable pub handle_upsert_session : Decoded Session → Store → Store × Outcome
handle_upsert_session (malformed message) s = (s, invalid_params message)
handle_upsert_session (decoded given) s =
    let (s', stored) = Sessions.upsert_session given s in
    if given.id == "" then (s, invalid_params "id is required") else (s', result (session stored))

pub handle_remove_session : Decoded String → Store → Store × Outcome
handle_remove_session (malformed message) s = (s, invalid_params message)
handle_remove_session (decoded id) s =
    let (s', existed) = Sessions.remove_session id s in (s', result (removed existed))

unfoldable pub handle_upsert_workspace : Decoded Workspace → Store → Store × Outcome
handle_upsert_workspace (malformed message) s = (s, invalid_params message)
handle_upsert_workspace (decoded given) s =
    let (s', stored) = Workspaces.upsert_workspace given s in
    if given.id == "" && given.path == ""
    then (s, invalid_params "id or path is required")
    else (s', result (workspace stored))

pub handle_upsert_edge : Decoded Edge → Store → Store × Outcome
handle_upsert_edge (malformed message) s = (s, invalid_params message)
handle_upsert_edge (decoded given) s =
    let (s', stored) = Edges.upsert_edge given s in
    if given.from == "" || given.to == "" || given.type == ""
    then (s, invalid_params "from, to, and type are required")
    else (s', result (edge stored))

-- One case of the `switch`. `listing` is what `ListProcesses` returns, where the case calls it.
-- `stopping` stands for the reply and for the goroutine that calls `shutdown` 50 ms later.
module _ (handler : Handler) (os : Os) (json : Json) where
  unfoldable pub handle_method : Method → Listing → String → Store → Store × Outcome
  unfolding by_id or_not_found reply_processes reply_process reply_events reply_doctor decode_params
  handle_method info listing params s = (s, result (daemon handler.pid handler.started_at))
  handle_method shutdown listing params s = (
    s,
    if handler.can_shut_down
        then result stopping
        else internal_err "daemon shutdown is not configured",
  )
  handle_method health listing params s = (s, result healthy)
  handle_method Method.list_sessions listing params s =
      handle_list_sessions os listing (decode_params no_filter json.filter params) s
  handle_method Method.get_session listing params s = (
    s,
    by_id (λ id. or_not_found session "session" id (Sessions.get_session id s))
        (decode_params "" json.id params),
  )
  handle_method Method.list_processes listing params s = (s, reply_processes listing)
  handle_method Method.get_process listing params s =
      (s, by_id (λ id. reply_process id listing) (decode_params "" json.id params))
  handle_method Method.list_workspaces listing params s =
      (s, result (workspaces (Workspaces.list_workspaces s)))
  handle_method Method.get_workspace listing params s = (
    s,
    by_id (λ id. or_not_found workspace "workspace" id (Workspaces.get_workspace id s))
        (decode_params "" json.id params),
  )
  handle_method Method.get_lineage listing params s = (
    s,
    by_id (λ id. result (lineage_of (lineage id s))) (decode_params "" json.session_id params),
  )
  handle_method Method.list_events listing params s =
      (s, reply_events s (decode_params no_query json.query params))
  handle_method Method.list_sources listing params s =
      (s, result (sources (Sources.list_sources s)))
  handle_method Method.doctor listing params s =
      (s, by_id (reply_doctor s) (decode_params "" json.id params))
  handle_method Method.upsert_session listing params s =
      handle_upsert_session (decode_params zero_session json.session params) s
  handle_method Method.remove_session listing params s =
      handle_remove_session (decode_params "" json.id params) s
  handle_method Method.upsert_workspace listing params s =
      handle_upsert_workspace (decode_params zero_workspace json.workspace params) s
  handle_method Method.upsert_edge listing params s =
      handle_upsert_edge (decode_params zero_edge json.edge params) s

  unfoldable pub handle_read : Option Method → String → Listing → String → Store → Store × Outcome
  handle_read none name listing params s =
      (s, error method_not_found_code ("method not found: " ⧺ name))
  handle_read (some method) name listing params s = handle_method method listing params s

  unfoldable pub handle : String → Listing → String → Store → Store × Outcome
  handle name listing params s = handle_read (read_method name) name listing params s
