-- ===== src/Api/Reconcile/Reported.antt =====
-- internal/api/handler.go: `reconcileProcessSessions`, and the edges that clients reported.
use the_score.Base.{
  Bool, true, false, String, List, [], ◌∷◌, Option, none, some, ◌≡◌, ◌≢◌, refl, ◌∙◌, arith, eq_iff,
  ap, subst, if◌then◌else◌, ℤ, starts_with,
}
use the_score.Base.Table.{get, remove, get-put, get-remove}
use the_score.Strings.{◌⧺◌}
use text.Mathlib.TextPositions.{starts_with-append}
use the_score.Model.{Time, Session, Process, Edge}
use the_score.Runtime.{Os}
use the_score.Runtime.Infer.{infer_agent_process_session}
use the_score.Store.{Store, now}
use the_score.Store.Log.Frame.{append_event-SameGraph}
use the_score.Store.Sessions.{
  with_session, fill_session, session_event, upsert_session, removed_event, remove_session,
  get_session, list_sessions,
}
use the_score.Store.Workspaces.Laws.{graph-upsert_workspace}
use the_score.Store.Edges.{upsert_edge, remove_edge, fill_edge}
use the_score.Store.Edges.Laws.{graph-upsert_edge, graph-remove_edge}
use the_score.Api.Reconcile.{
  is_inferred_process_session, Listing, listed, failed, Scan, session_of, with_cwd,
  session_workspace, admit, admit_over, scan_found, scan_process, scan_processes, adopt,
  edge_prefix, process_edge, Linked, link_process, link_processes, is_stale, sweep_sessions,
  is_stale_edge, sweep_edges, all_sessions, start_scan, reconcile_listed, reconcile,
}

edges-upsert_session : (y : Session) (s : Store) → (upsert_session y s).0.edges ≡ s.edges
unfolding upsert_session
edges-upsert_session y s = ground (
  arith,
  append_event-SameGraph
      (session_event (get (fill_session (now s) y).id s.sessions) (fill_session (now s) y))
      (with_session (fill_session (now s) y) s),
)

edges-remove_session : (id : String) (s : Store) → (remove_session id s).0.edges ≡ s.edges
unfolding remove_session
edges-remove_session id s = ground (
  arith,
  append_event-SameGraph (removed_event id) (record s { sessions = remove id s.sessions }),
)

edges-admit :
    (t : Time) (proc : Process) (y : Session) (st : Scan)
    → (admit t proc y st).store.edges ≡ st.store.edges
unfolding admit
edges-admit t proc y st = ground (
  arith,
  edges-upsert_session y st.store,
  graph-upsert_workspace (session_workspace t y) (upsert_session y st.store).0,
)

edges-admit_over :
    (t : Time) (proc : Process) (y : Session) (o : Option Session) (st : Scan)
    → (admit_over t proc y o st).store.edges ≡ st.store.edges
unfolding admit_over
edges-admit_over t proc y none st = edges-admit t proc y st
edges-admit_over t proc y (some e) st =
    ground (arith, edges-admit t proc (record y { started_at = e.started_at }) st)

edges-scan_found :
    (os : Os) (t : Time) (proc : Process) (o : Option Session) (st : Scan)
    → (scan_found os t proc o st).store.edges ≡ st.store.edges
unfolding scan_found
edges-scan_found os t proc none st = refl
edges-scan_found os t proc (some y) st =
    let found = with_cwd os proc y in
    edges-admit_over t found.0 found.1 (get_session found.1.id st.store) st

edges-scan_processes :
    (os : Os) (t : Time) (procs : List Process) (st : Scan)
    → (scan_processes os t procs st).store.edges ≡ st.store.edges
unfolding scan_processes scan_process
edges-scan_processes os t [] st = refl
edges-scan_processes os t (proc ∷ procs) st =
    edges-scan_processes os t procs (scan_process os t proc st)
    ∙ edges-scan_found os t proc (infer_agent_process_session os proc t) st

if-edges : (b : Bool) (s t : Store) → t.edges ≡ s.edges → (if b then t else s).edges ≡ s.edges
if-edges true s t e = e
if-edges false s t e = refl

pub edges-adopt :
    (parent_id : String) (o : Option Session) (s : Store) → (adopt parent_id o s).edges ≡ s.edges
unfolding adopt
edges-adopt parent_id none s = refl
edges-adopt parent_id (some child) s =
    if-edges (is_inferred_process_session child) s _ (edges-upsert_session _ s)

pub edges-sweep_sessions :
    (seen : List String) (ys : List Session) (s : Store)
    → (sweep_sessions seen ys s).edges ≡ s.edges
unfolding sweep_sessions
edges-sweep_sessions seen [] s = refl
edges-sweep_sessions seen (y ∷ ys) s = ground (
  arith,
  edges-remove_session y.id s,
  edges-sweep_sessions seen ys (if is_stale seen y then (remove_session y.id s).0 else s),
)

pub process_edge-prefix :
    (t : Time) (child_id parent_id : String)
    → starts_with (process_edge t child_id parent_id).id edge_prefix ≡ true
unfolding process_edge
process_edge-prefix t child_id parent_id =
    starts_with-append edge_prefix (child_id ⧺ "->" ⧺ parent_id)

pub own_prefix :
    (gone id : String)
    → starts_with gone edge_prefix ≡ true
    → gone ≡ id
    → starts_with id edge_prefix ≡ true
own_prefix gone id own e = subst (λ k. starts_with k edge_prefix ≡ true) e own

pub fill_edge-id : (t : Time) (e : Edge) → e.id ≢ "" → (fill_edge t e).id ≡ e.id
unfolding fill_edge
fill_edge-id t e named = ground (arith, eq_iff e.id "")

-- An edge whose id the daemon did not make.
module _ (id : String) (foreign : starts_with id edge_prefix ≡ false) where
  upsert_edge-edge :
      (e : Edge) (s : Store)
      → starts_with e.id edge_prefix ≡ true
      → get id (upsert_edge e s).0.edges ≡ get id s.edges
  upsert_edge-edge e s own =
      let filled = fill_edge (now s) e in
      let kept : filled.id ≡ e.id = fill_edge-id (now s) e (λ z. cc (own_prefix e.id "" own z)) in
      let differs : e.id ≢ id = λ z. cc (own_prefix e.id id own z, foreign) in
      rw (graph-upsert_edge e s).edges
        (ground (arith, kept, differs, eq_iff filled.id id, get-put filled.id id filled s.edges))

  link_process-edge :
      (t : Time) (pids : List (ℤ × String)) (proc : Process) (st : Linked)
      → get id (link_process t pids proc st).store.edges ≡ get id st.store.edges
  unfolding link_process
  link_process-edge t pids proc st =
      let parent_id = session_of proc.ppid pids in
      let child_id = session_of proc.pid pids in
      let child = get_session child_id st.store in
      ground (
        arith,
        edges-adopt parent_id child st.store,
        upsert_edge-edge (process_edge t child_id parent_id) (adopt parent_id child st.store)
            (process_edge-prefix t child_id parent_id),
      )

  link_processes-edge :
      (t : Time) (pids : List (ℤ × String)) (procs : List Process) (st : Linked)
      → get id (link_processes t pids procs st).store.edges ≡ get id st.store.edges
  unfolding link_processes
  link_processes-edge t pids [] st = refl
  link_processes-edge t pids (proc ∷ procs) st =
      link_processes-edge t pids procs (link_process t pids proc st)
      ∙ link_process-edge t pids proc st

  remove_edge-edge :
      (gone : String) (s : Store)
      → starts_with gone edge_prefix ≡ true
      → get id (remove_edge gone s).0.edges ≡ get id s.edges
  remove_edge-edge gone s own =
      rw (graph-remove_edge gone s).edges
        (ground (arith, own_prefix gone id own, eq_iff gone id, get-remove gone id s.edges))

  if-edge :
      (b : Bool) (s t : Store)
      → (b ≡ true → get id t.edges ≡ get id s.edges)
      → get id (if b then t else s).edges ≡ get id s.edges
  if-edge true s t same = same refl
  if-edge false s t same = refl

  sweep_edges-edge :
      (seen : List String) (es : List Edge) (s : Store)
      → get id (sweep_edges seen es s).edges ≡ get id s.edges
  unfolding sweep_edges is_stale_edge
  sweep_edges-edge seen [] s = refl
  sweep_edges-edge seen (e ∷ es) s =
      sweep_edges-edge seen es (if is_stale_edge seen e then (remove_edge e.id s).0 else s)
      ∙ if-edge (is_stale_edge seen e) s (remove_edge e.id s).0
          (λ stale. remove_edge-edge e.id s (ground arith))

-- An edge that a client reported is still there, as it was, whatever the process table says: only
-- edges under the daemon's own prefix are added and removed.
pub reconcile-edge :
    (os : Os) (listing : Listing) (id : String) (s : Store)
    → starts_with id edge_prefix ≡ false
    → get id (reconcile os listing s).0.edges ≡ get id s.edges
unfolding reconcile reconcile_listed
reconcile-edge os (failed message) id s foreign = refl
reconcile-edge os (listed procs) id s foreign =
    let scan = scan_processes os (now s) procs (start_scan s) in
    let none_seen : Linked = record { seen_edges = []; store = scan.store } in
    let linked = link_processes (now s) scan.pids scan.inferred none_seen in
    sweep_edges-edge id foreign linked.seen_edges _ _
    ∙ ap (get id)
        (edges-sweep_sessions scan.seen (list_sessions all_sessions linked.store) linked.store)
    ∙ link_processes-edge id foreign (now s) scan.pids scan.inferred none_seen
    ∙ ap (get id) (edges-scan_processes os (now s) procs (start_scan s))
