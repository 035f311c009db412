-- ===== src/Store/Sessions/Laws.antt =====
-- What the session methods do to the sessions, the rest of the graph and the log.
use the_score.Base.{String, none, some, ◌≡◌, ◌==◌, arith, eq_iff, if◌then◌else◌, is_some}
use the_score.Base.Table.{get, put, remove, remove_of_none, get-put, get-remove}
use the_score.Model.{Session}
use the_score.Store.{Store, now}
use the_score.Store.Log.Frame.{append_event-SameGraph}
use the_score.Store.Sessions.{
  with_session, fill_session, session_event, upsert_session, remove_session, removed_event,
  get_session,
}

-- The table of sessions after `UpsertSession`.
sessions-upsert_session :
    (session : Session) (s : Store)
    → (upsert_session session s).0.sessions ≡ (
        if session.id == ""
        then s.sessions
        else put session.id (fill_session (now s) session) s.sessions)
unfolding upsert_session fill_session
sessions-upsert_session session s = ground (
  arith,
  append_event-SameGraph (session_event (get session.id s.sessions) (fill_session (now s) session))
      (with_session (fill_session (now s) session) s),
)

-- `GetSession` after `UpsertSession`: the filled-in session under its id, and what was there before
-- under any other id. A session with no id changes nothing.
pub get_session-upsert_session :
    (session : Session) (id : String) (s : Store)
    → get_session id (upsert_session session s).0 ≡ (
        if session.id == ""
        then get_session id s
        else if session.id == id
        then some (fill_session (now s) session)
        else get_session id s)
unfolding get_session
get_session-upsert_session session id s = ground (
  arith,
  sessions-upsert_session session s,
  get-put session.id id (fill_session (now s) session) s.sessions,
)

-- The table of sessions after `RemoveSession`.
sessions-remove_session :
    (id : String) (s : Store) → (remove_session id s).0.sessions ≡ remove id s.sessions
unfolding remove_session
sessions-remove_session id s = ground (
  arith,
  remove_of_none id s.sessions,
  append_event-SameGraph (removed_event id) (record s { sessions = remove id s.sessions }),
)

-- `GetSession` after `RemoveSession`: nothing under the id, and what was there before elsewhere.
-- The result says whether there was a session to remove.
pub get_session-remove_session :
    (gone id : String) (s : Store)
    → (get_session id (remove_session gone s).0 ≡ (if gone == id then none else get_session id s))
      × ((remove_session gone s).1 ≡ is_some (get_session gone s))
unfolding get_session remove_session
get_session-remove_session gone id s = ground (
  arith,
  get-remove gone id s.sessions,
  eq_iff gone id,
  append_event-SameGraph (removed_event gone) (record s { sessions = remove gone s.sessions }),
)
