-- ===== src/Api/Reconcile/Valid.antt =====
-- internal/api/handler.go: `reconcileProcessSessions`, loop by loop, and the invariant of the store.
use the_score.Base.{
  Bool, true, false, String, List, [], ◌∷◌, Option, none, some, ◌==◌, if◌then◌else◌, Bool-cases,
  inl, inr, ℤ, ◌||◌,
}
use the_score.Model.{Time, Session, Process, Edge}
use the_score.Runtime.{Os}
use the_score.Runtime.Infer.{infer_agent_process_session}
use the_score.Store.{Store, now}
use the_score.Store.Sessions.{upsert_session, get_session}
use the_score.Store.Invariant.{
  IsValid, tick-IsValid, upsert_session-IsValid, remove_session-IsValid, upsert_workspace-IsValid,
  upsert_edge-IsValid, remove_edge-IsValid,
}
use the_score.Api.Reconcile.{
  is_inferred_process_session, Listing, listed, failed, Scan, session_of, with_cwd,
  session_workspace, admit, admit_over, scan_found, scan_process, scan_processes, adopt,
  process_edge, Linked, link_process, link_processes, is_stale, sweep_sessions, is_stale_edge,
  sweep_edges, start_scan, reconcile_listed, reconcile,
}

-- A branch on a test keeps the invariant where both sides do.
if-IsValid : (b : Bool) (s t : Store) → IsValid s → IsValid t → IsValid (if b then s else t)
if-IsValid true s t v w = v
if-IsValid false s t v w = w

admit-IsValid :
    (t : Time) (proc : Process) (y : Session) (st : Scan)
    → IsValid st.store
    → IsValid (admit t proc y st).store
unfolding admit
admit-IsValid t proc y st v =
    let stored = upsert_session-IsValid st.store v y in
    if-IsValid (y.cwd == "") _ _ stored
      (upsert_workspace-IsValid (upsert_session y st.store).0 stored (session_workspace t y))

admit_over-IsValid :
    (t : Time) (proc : Process) (y : Session) (o : Option Session) (st : Scan)
    → IsValid st.store
    → IsValid (admit_over t proc y o st).store
unfolding admit_over
admit_over-IsValid t proc y none st v = admit-IsValid t proc y st v
admit_over-IsValid t proc y (some e) st v = elim (Bool-cases (is_inferred_process_session e)) [
  | inl old ↦ rw old (admit-IsValid t proc (record y { started_at = e.started_at }) st v)
  | inr reported ↦ rw reported v
]

scan_found-IsValid :
    (os : Os) (t : Time) (proc : Process) (o : Option Session) (st : Scan)
    → IsValid st.store
    → IsValid (scan_found os t proc o st).store
unfolding scan_found
scan_found-IsValid os t proc none st v = v
scan_found-IsValid os t proc (some session) st v =
    let found = with_cwd os proc session in
    admit_over-IsValid t found.0 found.1 (get_session found.1.id st.store) st v

scan_process-IsValid :
    (os : Os) (t : Time) (proc : Process) (st : Scan)
    → IsValid st.store
    → IsValid (scan_process os t proc st).store
unfolding scan_process
scan_process-IsValid os t proc st v =
    scan_found-IsValid os t proc (infer_agent_process_session os proc t) st v

pub scan_processes-IsValid :
    (os : Os) (t : Time) (procs : List Process) (st : Scan)
    → IsValid st.store
    → IsValid (scan_processes os t procs st).store
unfolding scan_processes
scan_processes-IsValid os t [] st v = v
scan_processes-IsValid os t (proc ∷ procs) st v =
    scan_processes-IsValid os t procs (scan_process os t proc st)
      (scan_process-IsValid os t proc st v)

adopt-IsValid :
    (parent_id : String) (o : Option Session) (s : Store)
    → IsValid s
    → IsValid (adopt parent_id o s)
unfolding adopt
adopt-IsValid parent_id none s v = v
adopt-IsValid parent_id (some child) s v =
    if-IsValid (is_inferred_process_session child) _ s (upsert_session-IsValid s v _) v

pub link_process-IsValid :
    (t : Time) (pids : List (ℤ × String)) (proc : Process) (st : Linked)
    → IsValid st.store
    → IsValid (link_process t pids proc st).store
unfolding link_process
link_process-IsValid t pids proc st v =
    let parent_id = session_of proc.ppid pids in
    let child_id = session_of proc.pid pids in
    elim (Bool-cases (parent_id == "" || child_id == "")) [
      | inl outside ↦ rw outside v
      | inr inside ↦ rw inside (
          upsert_edge-IsValid (adopt parent_id (get_session child_id st.store) st.store)
            (adopt-IsValid parent_id (get_session child_id st.store) st.store v)
            (process_edge t child_id parent_id))
    ]

pub link_processes-IsValid :
    (t : Time) (pids : List (ℤ × String)) (procs : List Process) (st : Linked)
    → IsValid st.store
    → IsValid (link_processes t pids procs st).store
unfolding link_processes
link_processes-IsValid t pids [] st v = v
link_processes-IsValid t pids (proc ∷ procs) st v =
    link_processes-IsValid t pids procs (link_process t pids proc st)
      (link_process-IsValid t pids proc st v)

sweep_sessions-IsValid :
    (seen : List String) (xs : List Session) (s : Store)
    → IsValid s
    → IsValid (sweep_sessions seen xs s)
unfolding sweep_sessions
sweep_sessions-IsValid seen [] s v = v
sweep_sessions-IsValid seen (x ∷ xs) s v =
    sweep_sessions-IsValid seen xs _
      (if-IsValid (is_stale seen x) _ s (remove_session-IsValid s v x.id) v)

sweep_edges-IsValid :
    (seen : List String) (es : List Edge) (s : Store) → IsValid s → IsValid (sweep_edges seen es s)
unfolding sweep_edges
sweep_edges-IsValid seen [] s v = v
sweep_edges-IsValid seen (e ∷ es) s v =
    sweep_edges-IsValid seen es _
      (if-IsValid (is_stale_edge seen e) _ s (remove_edge-IsValid s v e.id) v)

reconcile_listed-IsValid :
    (os : Os) (procs : List Process) (s : Store) → IsValid s → IsValid (reconcile_listed os procs s)
unfolding reconcile_listed
reconcile_listed-IsValid os procs s v = sweep_edges-IsValid _ _ _ (
    sweep_sessions-IsValid _ _ _ (
      link_processes-IsValid (now s) _ _ _
        (scan_processes-IsValid os (now s) procs (start_scan s) (tick-IsValid s v))))

-- Reconciling a valid store leaves a valid one, whatever the process table says, and changes nothing
-- where it cannot be read.
pub reconcile-IsValid :
    (os : Os) (listing : Listing) (s : Store) → IsValid s → IsValid (reconcile os listing s).0
unfolding reconcile
reconcile-IsValid os (failed message) s v = v
reconcile-IsValid os (listed procs) s v = reconcile_listed-IsValid os procs s v
