-- ===== src/Store/Sessions/Listing.antt =====
-- What `ListSessions` lists, and in which order.
use the_score.Base.{
  ◌<◌, ◌≤◌, String, true, false, some, List, [], ◌∷◌, ◌≡◌, ◌≢◌, arith, eq_iff, ◌↔◌, ◌⊎◌, In, keep,
  All, Perm, contains, In-keep,
}
use the_score.Base.Table.{values, In-values, IsKeyed}
use the_score.Base.Sort.{In-sort, Ordered, Sorted-Ordered, IsWeakOrder, sort-Sorted, sort-perm}
use the_score.Model.{Session}
use the_score.Model.Status
use the_score.Store.{Store}
use the_score.Store.Sessions.{
  SessionFilter, is_terminal, wanted_statuses, is_empty, selects, session_less, attention_rank,
  list_sessions, get_session, session_matches_workspace,
}

abbrev session_id : Session → String
session_id session = session.id

-- A session that a filter asks for.
pub record IsWanted (filter : SessionFilter) (session : Session) : Type 0 where
  pub live :
      (filter.all ≡ true)
      ⊎ ((session.status ≢ Status.completed)
          × (session.status ≢ Status.failed)
          × (session.status ≢ Status.stopped))
  pub status :
      All (λ text. text ≡ "") filter.status
      ⊎ (In session.status filter.status × (session.status ≢ ""))
  pub source :
      (filter.source ≡ "")
      ⊎ (session.source ≡ filter.source)
      ⊎ (session.agent.adapter ≡ filter.source)
  pub workspace :
      (filter.workspace ≡ "") ⊎ (session_matches_workspace session filter.workspace ≡ true)

is_empty-wanted_statuses :
    (texts : List String)
    → (is_empty (wanted_statuses texts) ≡ true) ↔ All (λ text. text ≡ "") texts
unfolding wanted_statuses
is_empty-wanted_statuses [] = ground arith
is_empty-wanted_statuses (t ∷ texts) = ground (arith, eq_iff t "", is_empty-wanted_statuses texts)

contains-wanted_statuses :
    (status : String) (texts : List String)
    → (contains status (wanted_statuses texts) ≡ true) ↔ (In status texts × (status ≢ ""))
unfolding wanted_statuses
contains-wanted_statuses status [] = ground arith
contains-wanted_statuses status (t ∷ texts) =
    ground (arith, eq_iff t "", eq_iff t status, contains-wanted_statuses status texts)

is_terminal_iff :
    (status : String)
    → (is_terminal status ≡ false)
      ↔ ((status ≢ Status.completed) × (status ≢ Status.failed) × (status ≢ Status.stopped))
unfolding is_terminal
is_terminal_iff status = ground (
  arith,
  eq_iff status Status.completed,
  eq_iff status Status.failed,
  eq_iff status Status.stopped,
)

selects-IsWanted :
    (filter : SessionFilter) (session : Session)
    → (selects filter session ≡ true) ↔ IsWanted filter session
unfolding selects
selects-IsWanted filter session = ground (
  arith,
  is_terminal_iff session.status,
  is_empty-wanted_statuses filter.status,
  contains-wanted_statuses session.status filter.status,
  eq_iff filter.source "",
  eq_iff session.source filter.source,
  eq_iff session.agent.adapter filter.source,
  eq_iff filter.workspace "",
)

session_less-IsWeakOrder : IsWeakOrder session_less
unfolding session_less
session_less-IsWeakOrder = record {
  asym = λ a b h. ground arith;
  trans = λ a b c h k. ground arith;
}

-- `ListSessions` lists exactly the stored sessions that the filter asks for.
pub In-list_sessions :
    (filter : SessionFilter) (session : Session) (s : Store)
    → IsKeyed session_id s.sessions
    → In session (list_sessions filter s)
      ↔ ((get_session session.id s ≡ some session) × IsWanted filter session)
unfolding list_sessions get_session
In-list_sessions filter session s keyed =
    let listed = In-sort session_less session (keep (selects filter) (values s.sessions)) in
    let kept = In-keep (selects filter) session (values s.sessions) in
    let there = In-values session_id session s.sessions keyed in
    let wanted = selects-IsWanted filter session in
    (
      λ m. let (v, w) = kept.0 (listed.0 m) in (there.0 v, wanted.0 w),
      λ (g, w). listed.1 (kept.1 (there.1 g, wanted.1 w)),
    )

-- It lists each of them once.
list_sessions-perm :
    (filter : SessionFilter) (s : Store)
    → Perm (list_sessions filter s) (keep (selects filter) (values s.sessions))
unfolding list_sessions
list_sessions-perm filter s = sort-perm session_less _

-- The order of the listing: the more urgent rank, and of one rank the later activity.
abbrev pub Precedes : Session → Session → Type 0
Precedes a b =
    (attention_rank a < attention_rank b)
    ⊎ ((attention_rank a ≡ attention_rank b) × (b.last_activity_at ≤ a.last_activity_at))

Precedes-of_not_less : (a b : Session) → session_less b a ≡ false → Precedes a b
unfolding session_less
Precedes-of_not_less a b h = ground arith

-- Each listed session precedes all that are listed behind it: the more urgent ranks come first, and
-- within a rank the later activity.
pub list_sessions-Ordered :
    (filter : SessionFilter) (s : Store) → Ordered Precedes (list_sessions filter s)
unfolding list_sessions
list_sessions-Ordered filter s =
    Sorted-Ordered Precedes-of_not_less (list_sessions filter s)
      (sort-Sorted session_less-IsWeakOrder (keep (selects filter) (values s.sessions)))
