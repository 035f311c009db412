-- ===== src/Store/Graph/Refines.antt =====
-- internal/store/store.go: every method that changes the store makes one change of the graph.
use the_score.Base.{
  String, Option, ◌≡◌, refl, ap, ◌∙◌, sym, ◌==◌, if◌then◌else◌, Bool-cases, inl, inr, arith,
  is_some, true, false,
}
use mathlib.Core.Path.{fun_ext}
use the_score.Base.Table.{Table, get, put, remove, get-put, get-remove, remove_of_none}
use the_score.Model.{Session, Workspace, Edge, Source}
use the_score.Store.{Store, now}
use the_score.Store.Log.Frame.{SameGraph, append_event-SameGraph}
use the_score.Store.Sessions.{
  upsert_session, remove_session, fill_session, session_event, with_session, removed_event,
}
use the_score.Store.Workspaces.{upsert_workspace, fill_workspace}
use the_score.Store.Edges.{upsert_edge, fill_edge, remove_edge}
use the_score.Store.Sources.{upsert_source, fill_source}
use the_score.Store.Workspaces.Laws.{graph-upsert_workspace as same-upsert_workspace}
use the_score.Store.Edges.Laws.{
  graph-upsert_edge as same-upsert_edge, graph-remove_edge as same-remove_edge,
}
use the_score.Store.Graph.{
  graph, set, clear, keep, put_session, drop_session, put_workspace, put_edge, drop_edge,
  put_source, change,
}

graph-SameGraph : (s t : Store) → SameGraph s t → graph t ≡ graph s
graph-SameGraph s t same = rw (same.sessions, same.workspaces, same.edges, same.sources) refl

get_map-put :
    {V : Type 0} (k : String) (v : V) (m : Table V)
    → ◌≡◌ {A = String → Option V} (λ id. get id (put k v m)) (set k v (λ id. get id m))
get_map-put k v m = fun_ext (λ id. get-put k id v m)

get_map-remove :
    {V : Type 0} (k : String) (m : Table V)
    → ◌≡◌ {A = String → Option V} (λ id. get id (remove k m)) (clear k (λ id. get id m))
get_map-remove k m = fun_ext (λ id. get-remove k id m)

pub graph-upsert_workspace :
    (w : Workspace) (s : Store)
    → graph (upsert_workspace w s).0 ≡ change (put_workspace (fill_workspace (now s) w)) (graph s)
graph-upsert_workspace w s =
    let filled = fill_workspace (now s) w in
    graph-SameGraph (record s { workspaces = put filled.id filled s.workspaces })
      (upsert_workspace w s).0 (same-upsert_workspace w s)
    ∙ ap (λ f. record (graph s) { workspaces = f }) (get_map-put filled.id filled s.workspaces)

pub graph-upsert_edge :
    (e : Edge) (s : Store)
    → graph (upsert_edge e s).0 ≡ change (put_edge (fill_edge (now s) e)) (graph s)
graph-upsert_edge e s =
    let filled = fill_edge (now s) e in
    graph-SameGraph (record s { edges = put filled.id filled s.edges }) (upsert_edge e s).0
      (same-upsert_edge e s)
    ∙ ap (λ f. record (graph s) { edges = f }) (get_map-put filled.id filled s.edges)

pub graph-remove_edge :
    (id : String) (s : Store) → graph (remove_edge id s).0 ≡ change (drop_edge id) (graph s)
graph-remove_edge id s =
    graph-SameGraph (record s { edges = remove id s.edges }) (remove_edge id s).0
      (same-remove_edge id s)
    ∙ ap (λ f. record (graph s) { edges = f }) (get_map-remove id s.edges)

upsert_named :
    (x : Session) (s : Store)
    → (x.id == "") ≡ false
    → graph (upsert_session x s).0 ≡ change (put_session (fill_session (now s) x)) (graph s)
unfolding upsert_session fill_session
upsert_named x s named =
    let filled = fill_session (now s) x in
    rw named (
      graph-SameGraph (with_session filled s) _ (
        append_event-SameGraph (session_event (get filled.id s.sessions) filled)
          (with_session filled s))
      ∙ ap (λ f. record (graph s) { sessions = f }) (get_map-put filled.id filled s.sessions))

upsert_unnamed :
    (x : Session) (s : Store) → (x.id == "") ≡ true → graph (upsert_session x s).0 ≡ graph s
unfolding upsert_session
upsert_unnamed x s unnamed = rw unnamed refl

pub graph-upsert_session :
    (x : Session) (s : Store)
    → graph (upsert_session x s).0
      ≡ change (if x.id == "" then keep else put_session (fill_session (now s) x)) (graph s)
graph-upsert_session x s = elim (Bool-cases (x.id == "")) [
  | inl unnamed ↦ upsert_unnamed x s unnamed ∙ rw unnamed refl
  | inr named ↦ upsert_named x s named ∙ rw named refl
]

pub graph-upsert_source :
    (x : Source) (s : Store)
    → graph (upsert_source x s).0
      ≡ change (if x.id == "" then keep else put_source (fill_source (now s) x)) (graph s)
unfolding upsert_source
graph-upsert_source x s = elim (Bool-cases (x.id == "")) [
  | inl unnamed ↦ rw unnamed refl
  | inr named ↦
      let filled = fill_source (now s) x in
      rw named (ap (λ f. record (graph s) { sources = f }) (get_map-put filled.id filled s.sources))
]

pub graph-remove_session :
    (id : String) (s : Store) → graph (remove_session id s).0 ≡ change (drop_session id) (graph s)
unfolding remove_session
graph-remove_session id s = elim (Bool-cases (is_some (get id s.sessions))) [
  | inl there ↦ rw there (
      graph-SameGraph (record s { sessions = remove id s.sessions }) _
        (append_event-SameGraph (removed_event id) (record s { sessions = remove id s.sessions }))
      ∙ ap (λ f. record (graph s) { sessions = f }) (get_map-remove id s.sessions))
  | inr gone ↦ rw gone (
      ap (λ f. record (graph s) { sessions = f })
        (ap (λ m id. get id m) (sym (remove_of_none id s.sessions (ground arith)))
          ∙ get_map-remove id s.sessions))
]
