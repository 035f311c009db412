-- ===== src/Api/Reconcile/Native.antt =====
-- internal/api/handler.go: `reconcileProcessSessions`, and the sessions that clients reported.
use the_score.Base.{
  true, false, String, List, [], ◌∷◌, Option, none, some, ◌==◌, ◌≡◌, ◌≢◌, refl, sym, ◌∙◌, subst,
  arith, eq_iff, Bool-cases, Option-cases, inl, inr, ℤ, In,
}
use the_score.Base.Table.{get, key-get}
use the_score.Model.{Time, Session, Process, Edge}
use the_score.Runtime.{Os}
use the_score.Runtime.Infer.{infer_agent_process_session}
use the_score.Store.{Store, now}
use the_score.Store.Sessions.{upsert_session, get_session, list_sessions}
use the_score.Store.Sessions.Laws.{get_session-upsert_session, get_session-remove_session}
use the_score.Store.Workspaces.{upsert_workspace}
use the_score.Store.Workspaces.Laws.{graph-upsert_workspace}
use the_score.Store.Edges.{upsert_edge, remove_edge}
use the_score.Store.Edges.Laws.{graph-upsert_edge, graph-remove_edge}
use the_score.Store.Invariant.{IsValid, tick-IsValid, session_id}
use the_score.Store.Sessions.Listing.{In-list_sessions}
use the_score.Api.Reconcile.Valid.{
  scan_processes-IsValid, link_process-IsValid, link_processes-IsValid,
}
use the_score.Api.Reconcile.{
  scan_found, is_inferred_process_session, Listing, listed, failed, Scan, session_of, with_cwd,
  session_workspace, admit, admit_over, scan_process, scan_processes, adopt, process_edge, Linked,
  link_process, link_processes, is_stale, sweep_sessions, sweep_edges, all_sessions, start_scan,
  reconcile_listed, reconcile,
}

pub get_session-upsert_workspace :
    (id : String) (w : _) (s : Store) → get_session id (upsert_workspace w s).0 ≡ get_session id s
unfolding get_session
get_session-upsert_workspace id w s = rw (graph-upsert_workspace w s).sessions

pub get_session-upsert_edge :
    (id : String) (e : Edge) (s : Store) → get_session id (upsert_edge e s).0 ≡ get_session id s
unfolding get_session
get_session-upsert_edge id e s = rw (graph-upsert_edge e s).sessions

pub get_session-remove_edge :
    (id gone : String) (s : Store) → get_session id (remove_edge gone s).0 ≡ get_session id s
unfolding get_session
get_session-remove_edge id gone s = rw (graph-remove_edge gone s).sessions

-- A session that a client reported, under its id.
module _ (id : String) (x : Session) (native : is_inferred_process_session x ≡ false) where
  abbrev pub Holds : Store → Type 0
  Holds s = get_session id s ≡ some x

  upsert-Holds : (y : Session) (s : Store) → y.id ≢ id → Holds s → Holds (upsert_session y s).0
  upsert-Holds y s ne h = ground (arith, get_session-upsert_session y id s, eq_iff y.id id)

  admit-Holds :
      (t : Time) (proc : Process) (y : Session) (st : Scan)
      → y.id ≢ id
      → Holds st.store
      → Holds (admit t proc y st).store
  unfolding admit
  admit-Holds t proc y st ne h = ground (
    arith,
    upsert-Holds y st.store ne h,
    get_session-upsert_workspace id (session_workspace t y) (upsert_session y st.store).0,
  )

  admit_other-Holds :
      (t : Time) (proc : Process) (y : Session) (o : Option Session) (st : Scan)
      → y.id ≢ id
      → Holds st.store
      → Holds (admit_over t proc y o st).store
  unfolding admit_over
  admit_other-Holds t proc y none st ne h = admit-Holds t proc y st ne h
  admit_other-Holds t proc y (some e) st ne h =
      ground (arith, admit-Holds t proc (record y { started_at = e.started_at }) st ne h)

  admit_over-Holds :
      (t : Time) (proc : Process) (y : Session) (st : Scan)
      → Holds st.store
      → Holds (admit_over t proc y (get_session y.id st.store) st).store
  admit_over-Holds t proc y st h = elim (Bool-cases (y.id == id)) [
    | inl same ↦
        let there : get_session y.id st.store ≡ some x =
          subst (λ k. get_session k st.store ≡ some x) (sym ((eq_iff y.id id).0 same)) h in
        rw there (unfold admit_over in rw native h)
    | inr other ↦ admit_other-Holds t proc y _ st (ground (arith, eq_iff y.id id)) h
  ]

  pub scan_found-Holds :
      (os : Os) (t : Time) (proc : Process) (o : Option Session) (st : Scan)
      → Holds st.store
      → Holds (scan_found os t proc o st).store
  unfolding scan_found
  scan_found-Holds os t proc none st h = h
  scan_found-Holds os t proc (some y) st h =
      let found = with_cwd os proc y in admit_over-Holds t found.0 found.1 st h

  scan_processes-Holds :
      (os : Os) (t : Time) (procs : List Process) (st : Scan)
      → Holds st.store
      → Holds (scan_processes os t procs st).store
  unfolding scan_processes scan_process
  scan_processes-Holds os t [] st h = h
  scan_processes-Holds os t (proc ∷ procs) st h =
      scan_processes-Holds os t procs (scan_process os t proc st)
        (scan_found-Holds os t proc (infer_agent_process_session os proc t) st h)

  -- A stored session that was inferred has another id, since a lookup finds it under its own.
  other_id :
      (child_id : String) (child : Session) (s : Store)
      → IsValid s
      → Holds s
      → get_session child_id s ≡ some child
      → is_inferred_process_session child ≡ true
      → child.id ≢ id
  unfolding get_session
  other_id child_id child s v h there inferred e =
      let own : child.id ≡ child_id =
        key-get session_id child_id child s.sessions v.sessions there in
      let here : get id s.sessions ≡ some child =
        subst (λ k. get k s.sessions ≡ some child) (sym own ∙ e) there in
      ground (arith, here, h)

  adopt-Holds :
      (parent_id child_id : String) (s : Store)
      → IsValid s
      → Holds s
      → Holds (adopt parent_id (get_session child_id s) s)
  adopt-Holds parent_id child_id s v h = elim (Option-cases (get_session child_id s)) [
    | inl missing ↦ rw missing (unfold adopt in h)
    | inr (child, there) ↦ rw there (
        unfold adopt in
        (elim (Bool-cases (is_inferred_process_session child)) [
          | inl inferred ↦
              rw inferred (upsert-Holds _ s (other_id child_id child s v h there inferred) h)
          | inr reported ↦ rw reported h
        ]))
  ]

  link_process-Holds :
      (t : Time) (pids : List (ℤ × String)) (proc : Process) (st : Linked)
      → IsValid st.store
      → Holds st.store
      → Holds (link_process t pids proc st).store
  unfolding link_process
  link_process-Holds t pids proc st v h =
      let parent_id = session_of proc.ppid pids in
      let child_id = session_of proc.pid pids in
      ground (
        arith,
        adopt-Holds parent_id child_id st.store v h,
        get_session-upsert_edge id (process_edge t child_id parent_id)
            (adopt parent_id (get_session child_id st.store) st.store),
      )

  pub link_processes-Holds :
      (t : Time) (pids : List (ℤ × String)) (procs : List Process) (st : Linked)
      → IsValid st.store
      → Holds st.store
      → Holds (link_processes t pids procs st).store
  unfolding link_processes
  link_processes-Holds t pids [] st v h = h
  link_processes-Holds t pids (proc ∷ procs) st v h =
      link_processes-Holds t pids procs (link_process t pids proc st)
        (link_process-IsValid t pids proc st v) (link_process-Holds t pids proc st v h)

  pub sweep_sessions-Holds :
      (seen : List String) (ys : List Session) (s : Store)
      → ((y : Session) → In y ys → y.id ≡ id → y ≡ x)
      → Holds s
      → Holds (sweep_sessions seen ys s)
  unfolding sweep_sessions
  sweep_sessions-Holds seen [] s only h = h
  sweep_sessions-Holds seen (y ∷ ys) s only h =
      sweep_sessions-Holds seen ys _ (λ z m. only z (inr m))
        (unfold is_stale in
          ground (
            arith,
            native,
            only y (inl refl),
            eq_iff y.id id,
            (get_session-remove_session y.id id s).0,
            h,
          ))

  sweep_edges-Holds :
      (seen : List String) (es : List Edge) (s : Store) → Holds s → Holds (sweep_edges seen es s)
  unfolding sweep_edges
  sweep_edges-Holds seen [] s h = h
  sweep_edges-Holds seen (e ∷ es) s h =
      sweep_edges-Holds seen es _ (ground (arith, get_session-remove_edge id e.id s, h))

  pub listed_once :
      (s : Store) (v : IsValid s)
      → Holds s
      → (y : Session) → In y (list_sessions all_sessions s)
      → y.id ≡ id
      → y ≡ x
  listed_once s v h y m e =
      let there = ((In-list_sessions all_sessions y s v.sessions).0 m).0 in
      let here : get_session id s ≡ some y = subst (λ k. get_session k s ≡ some y) e there in
      ground (arith, here, h)

-- A session that a client reported is still there, as it was, whatever the process table says, even
-- where a process claims its id.
pub reconcile-get_session :
    (os : Os) (listing : Listing) (id : String) (x : Session) (s : Store)
    → IsValid s
    → get_session id s ≡ some x
    → is_inferred_process_session x ≡ false
    → get_session id (reconcile os listing s).0 ≡ some x
unfolding reconcile reconcile_listed
reconcile-get_session os (failed message) id x s v h native = h
reconcile-get_session os (listed procs) id x s v h native =
    let v0 = tick-IsValid s v in
    let scan = scan_processes os (now s) procs (start_scan s) in
    let v1 = scan_processes-IsValid os (now s) procs (start_scan s) v0 in
    let h1 =
      scan_processes-Holds id x native os (now s) procs (start_scan s) (unfold get_session in h) in
    let v2 =
      link_processes-IsValid (now s) scan.pids scan.inferred
        (record { seen_edges = []; store = scan.store }) v1 in
    let h2 =
      link_processes-Holds id x native (now s) scan.pids scan.inferred
        (record { seen_edges = []; store = scan.store }) v1 h1 in
    sweep_edges-Holds id x native _ _ _
      (sweep_sessions-Holds id x native scan.seen _ _ (listed_once id x native _ v2 h2) h2)
