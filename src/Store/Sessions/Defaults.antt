-- ===== src/Store/Sessions/Defaults.antt =====
-- The defaults of `UpsertSession`.
use the_score.Base.{
  String, false, Option, none, some, ◌≡◌, ◌≢◌, refl, ◌==◌, arith, eq_iff, ◌↔◌, ◌++◌, ◌∷◌, [],
}
use the_score.Base.Table.{get}
use the_score.Model.{Time, Session}
use the_score.Model.Status
use the_score.Model.Attention
use the_score.Model.Confidence
use the_score.Store.{Store, now, tick, or_else, or_time}
use the_score.Store.Log.{trim, stamp}
use the_score.Store.Log.Polling.{events-append_event}
use the_score.Store.Sessions.{
  derive_attention, with_session, fill_session, session_event, session_event_type, upsert_session,
  get_session,
}

-- What a stored session always says.
pub record IsFilled (session : Session) : Type 0 where
  pub kind : session.kind ≢ ""
  pub status : session.status ≢ ""
  pub attention : session.attention ≢ ""
  pub confidence : session.confidence ≢ ""
  pub source : session.source ≢ ""
  pub active : session.last_activity_at ≢ 0
  pub started : session.started_at ≢ 0
  pub root : session.root_session_id ≢ ""

or_else-ne-nil : (text other : String) → other ≢ "" → or_else text other ≢ ""
or_else-ne-nil text other h = ground (arith, eq_iff text "")

or_time-ne-zero : (t other : Time) → other ≢ 0 → or_time t other ≢ 0
or_time-ne-zero t other h = ground arith

derive_attention-ne-nil : (status : String) → derive_attention status ≢ ""
unfolding derive_attention
derive_attention-ne-nil status = ground (
  arith,
  eq_iff Attention.input "",
  eq_iff Attention.review "",
  eq_iff Attention.error "",
  eq_iff Attention.none "",
)

root_ne_nil :
    (session : Session)
    → session.id ≢ ""
    → or_else session.root_session_id (or_else session.parent_session_id session.id) ≢ ""
root_ne_nil session k =
    or_else-ne-nil session.root_session_id _ (or_else-ne-nil session.parent_session_id session.id k)

-- A session with an id comes out with every default filled in, and with its own id.
pub fill_session-IsFilled :
    (t : Time) (session : Session)
    → t ≢ 0
    → session.id ≢ ""
    → IsFilled (fill_session t session) × ((fill_session t session).id ≡ session.id)
unfolding fill_session
fill_session-IsFilled t session h k =
    let last : or_time session.last_activity_at t ≢ 0 =
      or_time-ne-zero session.last_activity_at t h in
    (
      record {
        kind = or_else-ne-nil session.kind "session" (ground (arith, eq_iff "session" ""));
        status = or_else-ne-nil session.status Status.unknown (ground (arith, eq_iff "unknown" ""));
        attention = or_else-ne-nil session.attention _ (derive_attention-ne-nil _);
        confidence =
            or_else-ne-nil session.confidence Confidence.unknown
              (ground (arith, eq_iff "unknown" ""));
        source = or_else-ne-nil session.source "native" (ground (arith, eq_iff "native" ""));
        active = last;
        started = or_time-ne-zero session.started_at _ last;
        root = root_ne_nil session k;
      },
      refl,
    )

or_else_of_ne : (text other : String) → text ≢ "" → or_else text other ≡ text
or_else_of_ne text other h = ground (arith, eq_iff text "")

or_time_of_ne : (t other : Time) → t ≢ 0 → or_time t other ≡ t
or_time_of_ne t other h = ground arith

-- What is filled in stays as it is, whenever it is stored again.
pub fill_session_of_IsFilled :
    (t : Time) (session : Session) → IsFilled session → fill_session t session ≡ session
unfolding fill_session
fill_session_of_IsFilled t session f = rw (
  or_else_of_ne session.kind "session" f.kind,
  or_else_of_ne session.status Status.unknown f.status,
  or_else_of_ne session.attention _ f.attention,
  or_else_of_ne session.confidence Confidence.unknown f.confidence,
  or_else_of_ne session.source "native" f.source,
  or_time_of_ne session.last_activity_at t f.active,
  or_time_of_ne session.started_at _ f.started,
  or_else_of_ne session.root_session_id _ f.root,
)

-- The type of the event says whether the session is new, and else whether its status changed.
pub session_event_type_cases :
    (old : Option Session) (session : Session)
    → ((session_event_type old session ≡ "session.started") ↔ (old ≡ none))
      × ((session_event_type old session ≡ "status.changed")
          ↔ ((before : Session) × (old ≡ some before) × (before.status ≢ session.status)))
unfolding session_event_type
session_event_type_cases none session = ground (arith, eq_iff "session.started" "status.changed")
session_event_type_cases (some before) session = (
  ground (
    arith,
    eq_iff before.status session.status,
    eq_iff "session.upserted" "session.started",
    eq_iff "status.changed" "session.started",
  ),
  (
    λ e. (
      before,
      refl,
      ground
          (arith, eq_iff before.status session.status, eq_iff "session.upserted" "status.changed"),
    ),
    ground (arith, eq_iff before.status session.status),
  ),
)

-- `UpsertSession` of a session with an id records exactly one event, about the session as it is
-- stored and what was stored under its id before.
pub events-upsert_session :
    (session : Session) (s : Store)
    → session.id ≢ ""
    → (upsert_session session s).0.events
      ≡ trim s.max_events (
          s.events
          ++ stamp
              (session_event (get_session session.id s) (fill_session (now s) session))
              (tick s)
            ∷ [])
unfolding upsert_session get_session fill_session stamp
events-upsert_session session s h =
    let filled = fill_session (now s) session in
    let named : (session.id == "") ≡ false = ground (arith, eq_iff session.id "") in
    rw named
      (events-append_event (session_event (get filled.id s.sessions) filled)
        (with_session filled s)).0
