-- ===== src/Store/Invariant.antt =====
-- internal/store/store.go: the invariant of the store, and the methods that write it.
use the_score.Base.{ℕ, String, none, ◌≡◌, refl, ◌==◌, arith, is_some, Bool-cases, inl, inr, ℤ, pos}
use the_score.Base.Table.{
  Table, get, put, remove, get-nil, get-put, get-remove, IsKeyed, put-IsKeyed, remove-IsKeyed,
}
use the_score.Model.{Time, Session, Workspace, Edge, Source, Event}
use the_score.Store.{Store, new, now, tick}
use the_score.Store.Log.{append_event, has_subscriber, subscribe, cancel}
use the_score.Store.Log.Frame.{append_event-SameGraph}
use the_score.Store.Log.Window.{IsWindow, append_event-IsWindow}
use the_score.Store.Log.Delivery.{
  IsServed, append_event-IsServed, subscribe-IsServed, cancel-IsServed,
}
use the_score.Store.Sessions.{
  with_session, fill_session, session_event, upsert_session, removed_event, remove_session,
}
use the_score.Store.Workspaces.{fill_workspace, workspace_event, upsert_workspace}
use the_score.Store.Edges.{fill_edge, edge_event, upsert_edge, edge_removed_event, remove_edge}
use the_score.Store.Sources.{fill_source, upsert_source}

abbrev pub session_id : Session → String
session_id session = session.id

abbrev pub workspace_id : Workspace → String
workspace_id workspace = workspace.id

abbrev pub edge_id : Edge → String
edge_id edge = edge.id

abbrev source_id : Source → String
source_id source = source.id

-- Every resource stands once, under its own id, and no session under the empty id; the retained
-- events are a window on the history; the subscribers can be served.
pub record IsValid (s : Store) : Type 0 where
  pub sessions : IsKeyed session_id s.sessions
  pub named : get "" s.sessions ≡ none
  pub workspaces : IsKeyed workspace_id s.workspaces
  pub edges : IsKeyed edge_id s.edges
  pub sources : IsKeyed source_id s.sources
  pub window : IsWindow s
  pub served : IsServed s

-- A fresh store is valid.
pub new-IsValid : (clock : ℕ → ℕ) → IsValid (new clock)
unfolding new
new-IsValid clock = record {
  sessions = tt;
  named = get-nil "";
  workspaces = tt;
  edges = tt;
  sources = tt;
  window = record { first = pos 0; consecutive = refl; bounded = omega arith };
  served = record { distinct = tt; each_open = λ id m. unfold has_subscriber in cc m; calm = refl };
}

append_event-IsValid : (e : Event) (s : Store) → IsValid s → IsValid (append_event e s).0
append_event-IsValid e s v =
    let same = append_event-SameGraph e s in
    record {
      sessions = rw same.sessions v.sessions;
      named = rw same.sessions v.named;
      workspaces = rw same.workspaces v.workspaces;
      edges = rw same.edges v.edges;
      sources = rw same.sources v.sources;
      window = append_event-IsWindow e s v.window;
      served = append_event-IsServed e s v.served;
    }

-- The window and the subscribers do not depend on the graph or on the clock.
module _ (s : Store) (v : IsValid s) where
  with_graph-IsValid :
      (sessions : Table Session) (workspaces : Table Workspace) (edges : Table Edge)
      (sources : Table Source) (clock : ℕ → Time)
      → IsKeyed session_id sessions
      → get "" sessions ≡ none
      → IsKeyed workspace_id workspaces
      → IsKeyed edge_id edges
      → IsKeyed source_id sources
      → IsValid (record s {
        sessions = sessions;
        workspaces = workspaces;
        edges = edges;
        sources = sources;
        clock = clock;
      })
  with_graph-IsValid sessions workspaces edges sources clock a b c d e = record {
    sessions = a;
    named = b;
    workspaces = c;
    edges = d;
    sources = e;
    window = record {
      first = v.window.first;
      consecutive = v.window.consecutive;
      bounded = v.window.bounded;
    };
    served = record {
      distinct = v.served.distinct;
      each_open = v.served.each_open;
      calm = v.served.calm;
    };
  }

  pub tick-IsValid : IsValid (tick s)
  tick-IsValid =
      with_graph-IsValid s.sessions s.workspaces s.edges s.sources (tick s).clock v.sessions v.named
        v.workspaces v.edges v.sources

  pub upsert_session-IsValid : (session : Session) → IsValid (upsert_session session s).0
  unfolding upsert_session
  upsert_session-IsValid session = elim (Bool-cases (session.id == "")) [
    | inl nameless ↦ rw nameless tick-IsValid
    | inr named ↦
        let filled = fill_session (now s) session in
        rw named (
          append_event-IsValid (session_event (get filled.id s.sessions) filled)
            (with_session filled s)
            (with_graph-IsValid (put filled.id filled s.sessions) s.workspaces s.edges s.sources
              (tick s).clock (put-IsKeyed session_id filled.id filled s.sessions refl v.sessions)
              (unfold fill_session in
                ground (arith, get-put filled.id "" filled s.sessions, v.named))
              v.workspaces v.edges v.sources))
  ]

  pub remove_session-IsValid : (id : String) → IsValid (remove_session id s).0
  unfolding remove_session
  remove_session-IsValid id = elim (Bool-cases (is_some (get id s.sessions))) [
    | inl there ↦ rw there (
        append_event-IsValid (removed_event id) (record s { sessions = remove id s.sessions })
          (with_graph-IsValid (remove id s.sessions) s.workspaces s.edges s.sources s.clock
            (remove-IsKeyed session_id id s.sessions v.sessions)
            (ground (arith, get-remove id "" s.sessions, v.named)) v.workspaces v.edges v.sources))
    | inr missing ↦ rw missing v
  ]

  pub upsert_workspace-IsValid : (workspace : Workspace) → IsValid (upsert_workspace workspace s).0
  unfolding upsert_workspace
  upsert_workspace-IsValid workspace =
      let filled = fill_workspace (now s) workspace in
      append_event-IsValid (workspace_event (is_some (get filled.id s.workspaces)) filled)
        (record (tick s) { workspaces = put filled.id filled s.workspaces })
        (with_graph-IsValid s.sessions (put filled.id filled s.workspaces) s.edges s.sources
          (tick s).clock v.sessions v.named
          (put-IsKeyed workspace_id filled.id filled s.workspaces refl v.workspaces) v.edges
          v.sources)

  pub upsert_edge-IsValid : (edge : Edge) → IsValid (upsert_edge edge s).0
  unfolding upsert_edge
  upsert_edge-IsValid edge =
      let filled = fill_edge (now s) edge in
      append_event-IsValid (edge_event (is_some (get filled.id s.edges)) filled)
        (record (tick s) { edges = put filled.id filled s.edges })
        (with_graph-IsValid s.sessions s.workspaces (put filled.id filled s.edges) s.sources
          (tick s).clock v.sessions v.named v.workspaces
          (put-IsKeyed edge_id filled.id filled s.edges refl v.edges) v.sources)

  pub remove_edge-IsValid : (id : String) → IsValid (remove_edge id s).0
  unfolding remove_edge
  remove_edge-IsValid id = elim (Bool-cases (is_some (get id s.edges))) [
    | inl there ↦ rw there (
        append_event-IsValid (edge_removed_event id) (record s { edges = remove id s.edges })
          (with_graph-IsValid s.sessions s.workspaces (remove id s.edges) s.sources s.clock
            v.sessions v.named v.workspaces (remove-IsKeyed edge_id id s.edges v.edges) v.sources))
    | inr missing ↦ rw missing v
  ]

  pub upsert_source-IsValid : (source : Source) → IsValid (upsert_source source s).0
  unfolding upsert_source
  upsert_source-IsValid source = elim (Bool-cases (source.id == "")) [
    | inl nameless ↦ rw nameless tick-IsValid
    | inr named ↦
        let filled = fill_source (now s) source in
        rw named (
          with_graph-IsValid s.sessions s.workspaces s.edges (put filled.id filled s.sources)
            (tick s).clock v.sessions v.named v.workspaces v.edges
            (put-IsKeyed source_id filled.id filled s.sources refl v.sources))
  ]

  pub subscribe-IsValid : IsValid (subscribe s).0
  unfolding subscribe
  subscribe-IsValid = record {
    sessions = v.sessions;
    named = v.named;
    workspaces = v.workspaces;
    edges = v.edges;
    sources = v.sources;
    window = record {
      first = v.window.first;
      consecutive = v.window.consecutive;
      bounded = v.window.bounded;
    };
    served = subscribe-IsServed s v.served;
  }

pub cancel-IsValid : (id : ℤ) (s : Store) → IsValid s → IsValid (cancel id s)
unfolding cancel
cancel-IsValid id s v = elim (Bool-cases (has_subscriber id s.subscribers)) [
  | inl there ↦ rw there (record {
    sessions = v.sessions;
    named = v.named;
    workspaces = v.workspaces;
    edges = v.edges;
    sources = v.sources;
    window = record {
      first = v.window.first;
      consecutive = v.window.consecutive;
      bounded = v.window.bounded;
    };
    served = rw there at (cancel-IsServed id s v.served);
  })
  | inr missing ↦ rw missing v
]
