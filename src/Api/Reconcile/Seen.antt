-- ===== src/Api/Reconcile/Seen.antt =====
-- internal/api/handler.go: the first and the third loop of `reconcileProcessSessions`, and the
-- inferred sessions that they leave.
use the_score.Base.{
  Bool, true, false, ◌&&◌, String, List, [], ◌∷◌, Option, none, some, ◌==◌, ◌≡◌, refl, sym, ◌∙◌,
  subst, arith, eq_iff, ◌⊎◌, if◌then◌else◌, inl, inr, In, any, contains_iff,
}
use the_score.Base.Table.{key-get}
use the_score.Model.{Time, Session, Process, Edge}
use the_score.Runtime.{Os}
use the_score.Runtime.Infer.{infer_agent_process_session}
use the_score.Store.{Store, now}
use the_score.Store.Sessions.{remove_session, get_session, list_sessions}
use the_score.Store.Sessions.Laws.{get_session-remove_session}
use the_score.Store.Sessions.Listing.{In-list_sessions, IsWanted}
use the_score.Store.Edges.{list_edges, remove_edge}
use the_score.Store.Invariant.{IsValid, tick-IsValid, session_id}
use the_score.Api.Reconcile.Valid.{scan_processes-IsValid, link_processes-IsValid}
use the_score.Api.Reconcile.Native.{get_session-remove_edge}
use the_score.Api.Reconcile.{
  is_inferred_process_session, listed, Scan, with_cwd, admit, admit_over, scan_found, scan_process,
  scan_processes, Linked, link_processes, is_stale, is_stale_edge, sweep_sessions, sweep_edges,
  all_sessions, start_scan, reconcile_listed, reconcile,
}

-- What the third loop leaves: a session that it visits goes if it is stale.
pub get_session-sweep_sessions :
    (seen : List String) (ys : List Session) (id : String) (s : Store)
    → get_session id (sweep_sessions seen ys s)
      ≡ (if any (λ y. y.id == id && is_stale seen y) ys then none else get_session id s)
unfolding sweep_sessions
get_session-sweep_sessions seen [] id s = refl
get_session-sweep_sessions seen (y ∷ ys) id s = ground (
  arith,
  (get_session-remove_session y.id id s).0,
  get_session-sweep_sessions seen ys id (if is_stale seen y then (remove_session y.id s).0 else s),
)

pub get_session-sweep_edges :
    (seen : List String) (es : List Edge) (id : String) (s : Store)
    → get_session id (sweep_edges seen es s) ≡ get_session id s
unfolding sweep_edges
get_session-sweep_edges seen [] id s = refl
get_session-sweep_edges seen (e ∷ es) id s = ground (
  arith,
  get_session-remove_edge id e.id s,
  get_session-sweep_edges seen es id (if is_stale_edge seen e then (remove_edge e.id s).0 else s),
)

pub any-false :
    {A : Type 0} (p : A → Bool) (x : A) (ys : List A) → any p ys ≡ false → In x ys → p x ≡ false
any-false p x (y ∷ ys) h m = ground (arith, any-false p x ys)
any-false p x [] h m = absurd m

pub with_cwd-id : (os : Os) (proc : Process) (y : Session) → (with_cwd os proc y).1.id ≡ y.id
unfolding with_cwd
with_cwd-id os proc y = ground arith

-- A process of the list from which a session with this id is inferred.
pub record Runs (os : Os) (t : Time) (procs : List Process) (id : String) : Type 0 where
  pub proc : Process
  pub session : Session
  pub is_listed : In proc procs
  pub is_agent : infer_agent_process_session os proc t ≡ some session
  pub has_id : session.id ≡ id

seen-admit_over :
    (t : Time) (proc : Process) (y : Session) (o : Option Session) (st : Scan) (id : String)
    → In id (admit_over t proc y o st).seen
    → (y.id ≡ id) ⊎ In id st.seen
unfolding admit_over admit
seen-admit_over t proc y none st id m = ground arith
seen-admit_over t proc y (some e) st id m = ground arith

seen-scan_found :
    (os : Os) (t : Time) (proc : Process) (o : Option Session) (st : Scan) (id : String)
    → In id (scan_found os t proc o st).seen
    → ((y : Session) × (o ≡ some y) × (y.id ≡ id)) ⊎ In id st.seen
unfolding scan_found
seen-scan_found os t proc none st id m = inr m
seen-scan_found os t proc (some y) st id m =
    let found = with_cwd os proc y in
    elim (seen-admit_over t found.0 found.1 (get_session found.1.id st.store) st id m) [
      | inl e ↦ inl (y, refl, sym (with_cwd-id os proc y) ∙ e)
      | inr old ↦ inr old
    ]

seen-scan_processes :
    (os : Os) (t : Time) (procs : List Process) (st : Scan) (id : String)
    → In id (scan_processes os t procs st).seen
    → Runs os t procs id ⊎ In id st.seen
unfolding scan_processes scan_process
seen-scan_processes os t [] st id m = inr m
seen-scan_processes os t (proc ∷ procs) st id m =
    elim (seen-scan_processes os t procs (scan_process os t proc st) id m) [
      | inl r ↦ inl (record {
        proc = r.proc;
        session = r.session;
        is_listed = inr r.is_listed;
        is_agent = r.is_agent;
        has_id = r.has_id;
      })
      | inr later ↦
          elim (seen-scan_found os t proc (infer_agent_process_session os proc t) st id later) [
            | inl (y, agent, e) ↦ inl (record {
              proc = proc;
              session = y;
              is_listed = inl refl;
              is_agent = agent;
              has_id = e;
            })
            | inr old ↦ inr old
          ]
    ]

-- `ListSessions` with no filter visits every stored session.
all_IsWanted : (x : Session) → IsWanted all_sessions x
all_IsWanted x = record {
  live = inl refl;
  status = inl tt;
  source = inl refl;
  workspace = inl refl;
}

-- An inferred session that the third loop leaves was seen in the first.
survivor-seen :
    (seen : List String) (id : String) (x : Session) (s : Store)
    → IsValid s
    → get_session id (sweep_sessions seen (list_sessions all_sessions s) s) ≡ some x
    → is_inferred_process_session x ≡ true
    → In id seen
survivor-seen seen id x s v h inferred =
    let visits = λ (y : Session). y.id == id && is_stale seen y in
    let ys = list_sessions all_sessions s in
    let h' : (if any visits ys then none else get_session id s) ≡ some x =
      sym (get_session-sweep_sessions seen ys id s) ∙ h in
    let spared : any visits ys ≡ false = ground arith in
    let there : get_session id s ≡ some x = rw spared at h' in
    let own : x.id ≡ id =
      key-get session_id id x s.sessions v.sessions (unfold get_session in there) in
    let here : get_session x.id s ≡ some x =
      subst (λ k. get_session k s ≡ some x) (sym own) there in
    let visited = (In-list_sessions all_sessions x s v.sessions).1 (here, all_IsWanted x) in
    let fresh = any-false visits x ys spared visited in
    (contains_iff id seen).0
      (unfold is_stale in ground (arith, fresh, eq_iff x.id id, own, inferred))

-- After a reconciliation every inferred session belongs to a process that was listed just now.
pub reconcile-Runs :
    (os : Os) (procs : List Process) (id : String) (x : Session) (s : Store)
    → IsValid s
    → get_session id (reconcile os (listed procs) s).0 ≡ some x
    → is_inferred_process_session x ≡ true
    → Runs os (now s) procs id
unfolding reconcile reconcile_listed
reconcile-Runs os procs id x s v h inferred =
    let scan = scan_processes os (now s) procs (start_scan s) in
    let start : Linked = record { seen_edges = []; store = scan.store } in
    let linked = link_processes (now s) scan.pids scan.inferred start in
    let v1 = scan_processes-IsValid os (now s) procs (start_scan s) (tick-IsValid s v) in
    let v2 = link_processes-IsValid (now s) scan.pids scan.inferred start v1 in
    let swept = sweep_sessions scan.seen (list_sessions all_sessions linked.store) linked.store in
    let h' = sym (get_session-sweep_edges linked.seen_edges (list_edges swept) id swept) ∙ h in
    elim (seen-scan_processes os (now s) procs (start_scan s) id
      (survivor-seen scan.seen id x linked.store v2 h' inferred)) [ inl r ↦ r | inr m ↦ absurd m ]
