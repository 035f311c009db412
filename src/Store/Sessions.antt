-- ===== src/Store/Sessions.antt =====
-- internal/store/store.go: sessions.
pub mod Laws
pub mod Defaults
pub mod Listing
use the_score.Base.{
  ℕ, String, Bool, true, false, not, ◌&&◌, ◌||◌, List, [], ◌∷◌, ◌++◌, Option, none, some, ◌==◌,
  if◌then◌else◌, ltb, eqb, any, keep, contains, is_some,
}
use the_score.Base.Sort.{sort}
use the_score.Base.Table.{Table, get, put, remove, values}
use the_score.Strings
use the_score.Strings.{◌⧺◌}
use the_score.Model.{Time, Session, Event, str, field, end, zero_event}
use the_score.Model.Status
use the_score.Model.Attention
use the_score.Model.Confidence
use the_score.Store.{Store, now, tick, or_else, or_time}
use the_score.Store.Log.{append_event}

unfoldable pub derive_attention : String → String
derive_attention status =
    if status == Status.blocked
    then Attention.input
    else if status == Status.reviewable
    then Attention.review
    else if status == Status.failed || status == Status.disconnected
    then Attention.error
    else Attention.none

unfoldable pub is_terminal : String → Bool
is_terminal status =
    status == Status.completed || status == Status.failed || status == Status.stopped

unfoldable pub attention_rank : Session → ℕ
attention_rank session =
    if session.attention == Attention.input || session.attention == Attention.error
    then 0
    else if session.attention == Attention.review
    then 1
    else if session.status == Status.working
    then 2
    else if session.status == Status.idle
    then 3
    else 4

-- The defaults of `UpsertSession`, in the order of the source.
unfoldable pub fill_session : Time → Session → Session
fill_session time session =
    let status = or_else session.status Status.unknown in
    let last = or_time session.last_activity_at time in
    record session {
      kind = or_else session.kind "session";
      status = status;
      attention = or_else session.attention (derive_attention status);
      confidence = or_else session.confidence Confidence.unknown;
      source = or_else session.source "native";
      last_activity_at = last;
      started_at = or_time session.started_at last;
      root_session_id =
          or_else session.root_session_id (or_else session.parent_session_id session.id);
    }

pub session_event_type : Option Session → Session → String
session_event_type none session = "session.started"
session_event_type (some old) session =
    if old.status == session.status then "session.upserted" else "status.changed"

unfoldable pub session_event_summary : Option Session → Session → String
session_event_summary none session = "session started"
session_event_summary (some old) session =
    if old.status == session.status
    then "session upserted"
    else old.status ⧺ " -> " ⧺ session.status

-- What `UpsertSession` reports of a session that replaces `old`.
unfoldable pub session_event : Option Session → Session → Event
session_event old session = record zero_event {
  type = session_event_type old session;
  session_id = session.id;
  summary = session_event_summary old session;
  source = session.source;
  data_ = field "status" (str session.status) (field "attention" (str session.attention) end);
}

-- The store when `UpsertSession` has written the map.
abbrev pub with_session : Session → Store → Store
with_session session s = record (tick s) { sessions = put session.id session s.sessions }

unfoldable pub upsert_session : Session → Store → Store × Session
upsert_session session s =
    let filled = fill_session (now s) session in
    let old = get filled.id s.sessions in
    if session.id == ""
    then (tick s, session)
    else ((append_event (session_event old filled) (with_session filled s)).0, filled)

unfoldable pub removed_event : String → Event
removed_event id = record zero_event {
  type = "session.removed";
  session_id = id;
  summary = "session removed";
  source = "native";
}

unfoldable pub remove_session : String → Store → Store × Bool
remove_session id s =
    if is_some (get id s.sessions)
    then ((append_event (removed_event id) (record s { sessions = remove id s.sessions })).0, true)
    else (s, false)

-- `none` is ErrNotFound
unfoldable pub get_session : String → Store → Option Session
get_session id s = get id s.sessions

pub record SessionFilter : Type 0 where
  pub all : Bool
  pub status : List String
  pub workspace : String
  pub source : String

unfoldable pub session_matches_workspace : Session → String → Bool
session_matches_workspace session query =
    Strings.contains session.cwd query
    || any (λ root. Strings.contains root query) session.workspace_roots
    || any (λ id. Strings.contains id query) session.workspace_ids

-- The texts of `filter.Status` that count.
unfoldable pub wanted_statuses : List String → List String
wanted_statuses = keep (λ status. not (status == ""))

abbrev is_empty : List String → Bool
is_empty [] = true
is_empty (x ∷ xs) = false

-- Whether the loop of `ListSessions` reaches its `append`.
unfoldable pub selects : SessionFilter → Session → Bool
selects filter session =
    let statuses = wanted_statuses filter.status in
    if not filter.all && is_terminal session.status
    then false
    else if not (is_empty statuses) && not (contains session.status statuses)
    then false
    else if not (filter.source == "")
        && not (session.source == filter.source)
        && not (session.agent.adapter == filter.source)
    then false
    else if not (filter.workspace == "") && not (session_matches_workspace session filter.workspace)
    then false
    else true

-- The `less` of `ListSessions`: the rank, then the newer activity first.
unfoldable pub session_less : Session → Session → Bool
session_less a b =
    if eqb (attention_rank a) (attention_rank b)
    then ltb b.last_activity_at a.last_activity_at
    else ltb (attention_rank a) (attention_rank b)

unfoldable pub list_sessions : SessionFilter → Store → List Session
list_sessions filter s = sort session_less (keep (selects filter) (values s.sessions))
