-- ===== src/Api/Reconcile/Spawned.antt =====
-- internal/api/handler.go: the second and the fourth loop of `reconcileProcessSessions`, and the edges
-- between processes that they leave.
pub mod Left
use the_score.Base.{
  Bool, true, false, ◌&&◌, ◌||◌, String, List, [], ◌∷◌, ◌++◌, Option, none, some, ◌==◌, ◌≡◌, ◌≢◌,
  refl, sym, ◌∙◌, ap, subst, arith, eq_iff, ◌⊎◌, if◌then◌else◌, inl, inr, In, In-append, any,
  contains_iff, ℤ, eqb_ℤ, eqb_ℤ_iff, starts_with, Bool-cases,
}
use the_score.Base.Table.{get, put, get-put, get-remove}
use the_score.Model.{Time, Session, Process, Edge}
use the_score.Runtime.{Os}
use the_score.Runtime.Infer.{infer_agent_process_session}
use the_score.Store.{Store, now}
use the_score.Store.Sessions.{get_session}
use the_score.Store.Edges.{list_edges, remove_edge, upsert_edge, fill_edge}
use the_score.Store.Edges.Laws.{graph-upsert_edge, graph-remove_edge}
use the_score.Api.Reconcile.Reported.{
  edges-adopt, edges-sweep_sessions, process_edge-prefix, own_prefix, fill_edge-id,
}
use the_score.Api.Reconcile.Seen.{Runs, with_cwd-id}
use the_score.Api.Reconcile.{
  Scan, with_cwd, admit, admit_over, scan_found, scan_process, scan_processes, session_of,
  is_inferred_process_session, adopt, Linked, link_process, link_processes, process_edge,
  edge_prefix, start_scan,
}

with_cwd-pid :
    (os : Os) (proc : Process) (y : Session)
    → ((with_cwd os proc y).0.pid ≡ proc.pid) × ((with_cwd os proc y).0.ppid ≡ proc.ppid)
unfolding with_cwd
with_cwd-pid os proc y = ground arith

pids-admit_over :
    (t : Time) (proc : Process) (y : Session) (o : Option Session) (st : Scan) (pid : ℤ)
    (id : String)
    → In (pid, id) (admit_over t proc y o st).pids
    → ((pid ≡ proc.pid) × (id ≡ y.id)) ⊎ In (pid, id) st.pids
unfolding admit_over admit
pids-admit_over t proc y none st pid id m = ground arith
pids-admit_over t proc y (some e) st pid id m = ground arith

inferred-admit_over :
    (t : Time) (proc p : Process) (y : Session) (o : Option Session) (st : Scan)
    → In p (admit_over t proc y o st).inferred
    → (p ≡ proc) ⊎ In p st.inferred
unfolding admit_over admit
inferred-admit_over t proc p y none st m = ground (arith, In-append p st.inferred (proc ∷ []))
inferred-admit_over t proc p y (some e) st m = ground (arith, In-append p st.inferred (proc ∷ []))

session_of-In :
    (pid : ℤ) (id : String) (pids : List (ℤ × String))
    → session_of pid pids ≡ id
    → id ≢ ""
    → In (pid, id) pids
unfolding session_of
session_of-In pid id [] e named = absurd (named (sym e))
session_of-In pid id ((p, i) ∷ rest) e named =
    ground (arith, eqb_ℤ_iff p pid, session_of-In pid id rest)

module _ (os : Os) (t : Time) (procs : List Process) where
  -- A listed process with a pid, from which a session with this id is inferred.
  abbrev RunsAs : ℤ → String → Type 0
  RunsAs pid id = (r : Runs os t procs id) × (r.proc.pid ≡ pid)

  -- A process of the list with these numbers.
  abbrev IsListed : Process → Type 0
  IsListed p = (q : Process) × In q procs × (q.pid ≡ p.pid) × (q.ppid ≡ p.ppid)

  -- What the first loop knows of the processes that it remembers.
  record Traces (st : Scan) : Type 0 where
    pids : (pid : ℤ) (id : String) → In (pid, id) st.pids → RunsAs pid id
    inferred : (p : Process) → In p st.inferred → IsListed p

  scan_found-Traces :
      (proc : Process) (o : Option Session) (st : Scan)
      → In proc procs
      → infer_agent_process_session os proc t ≡ o
      → Traces st
      → Traces (scan_found os t proc o st)
  unfolding scan_found
  scan_found-Traces proc none st there agent v = v
  scan_found-Traces proc (some y) st there agent v =
      let found = with_cwd os proc y in
      let numbers = with_cwd-pid os proc y in
      let old = get_session found.1.id st.store in
      record {
        pids = λ pid id m. elim (pids-admit_over t found.0 found.1 old st pid id m) [
          | inl (p, e) ↦ (
            record {
              proc = proc;
              session = y;
              is_listed = there;
              is_agent = agent;
              has_id = sym (with_cwd-id os proc y) ∙ sym e;
            },
            sym numbers.0 ∙ sym p,
          )
          | inr before ↦ v.pids pid id before
        ];
        inferred = λ p m. elim (inferred-admit_over t found.0 p found.1 old st m) [
          | inl e ↦ (
            proc,
            there,
            sym numbers.0 ∙ sym (ap (λ (q : Process). q.pid) e),
            sym numbers.1 ∙ sym (ap (λ (q : Process). q.ppid) e),
          )
          | inr before ↦ v.inferred p before
        ];
      }

  scan_processes-Traces :
      (rest : List Process) (st : Scan)
      → ((p : Process) → In p rest → In p procs)
      → Traces st
      → Traces (scan_processes os t rest st)
  unfolding scan_processes scan_process
  scan_processes-Traces [] st part v = v
  scan_processes-Traces (proc ∷ rest) st part v =
      scan_processes-Traces rest (scan_process os t proc st) (λ p m. part p (inr m))
        (scan_found-Traces proc (infer_agent_process_session os proc t) st (part proc (inl refl))
          refl v)

  -- An edge between two listed processes: its ends are the sessions of two of them, and a process with
  -- the pid of the one names the pid of the other as its parent.
  pub record Spawned (e : Edge) : Type 0 where
    pub child : Runs os t procs e.from
    pub parent : Runs os t procs e.to
    pub link : Process
    pub is_listed : In link procs
    pub pid : link.pid ≡ child.proc.pid
    pub ppid : link.ppid ≡ parent.proc.pid
    pub type : e.type ≡ "spawned_by"

  -- What the second loop knows of the edges that it saw.
  abbrev pub Covers : Linked → Type 0
  Covers st =
      (id : String) (e : Edge) → In id st.seen_edges → get id st.store.edges ≡ some e → Spawned e

  module _ (pids : List (ℤ × String))
      (traced : (pid : ℤ) (id : String) → In (pid, id) pids → RunsAs pid id) where
    process_edge-Spawned :
        (time : Time) (p : Process)
        → IsListed p
        → session_of p.ppid pids ≢ ""
        → session_of p.pid pids ≢ ""
        → Spawned (fill_edge time (process_edge t (session_of p.pid pids) (session_of p.ppid pids)))
    unfolding fill_edge process_edge
    process_edge-Spawned time p (q, there, same, above) has_parent has_child =
        let child = traced p.pid _ (session_of-In p.pid _ pids refl has_child) in
        let parent = traced p.ppid _ (session_of-In p.ppid _ pids refl has_parent) in
        record {
          child = child.0;
          parent = parent.0;
          link = q;
          is_listed = there;
          pid = same ∙ sym child.1;
          ppid = above ∙ sym parent.1;
          type = refl;
        }

    upsert-Covers :
        (edge : Edge) (seen : List String) (s : Store)
        → edge.id ≢ ""
        → Spawned (fill_edge (now s) edge)
        → Covers (record { seen_edges = seen; store = s })
        → Covers (record { seen_edges = edge.id ∷ seen; store = (upsert_edge edge s).0 })
    upsert-Covers edge seen s named spawned v id e m found =
        let filled = fill_edge (now s) edge in
        let same : filled.id ≡ edge.id = fill_edge-id (now s) edge named in
        let found' : (if filled.id == id then some filled else get id s.edges) ≡ some e =
          sym (get-put filled.id id filled s.edges)
          ∙ ap (get id) (sym (graph-upsert_edge edge s).edges)
          ∙ found in
        elim (Bool-cases (filled.id == id)) [
          | inl new ↦
              let e' : some filled ≡ some e = rw new at found' in
              subst Spawned (ground arith) spawned
          | inr old ↦
              let e' : get id s.edges ≡ some e = rw old at found' in
              let fresh : edge.id ≢ id = λ z. cc (old, (eq_iff filled.id id).1 (same ∙ z)) in
              v id e (elim m [ inl here ↦ absurd (fresh (sym here)) | inr there ↦ there ]) e'
        ]

    link_process-Covers :
        (p : Process) (st : Linked) → IsListed p → Covers st → Covers (link_process t pids p st)
    unfolding link_process
    link_process-Covers p st listed_ v =
        let parent_id = session_of p.ppid pids in
        let child_id = session_of p.pid pids in
        let edge = process_edge t child_id parent_id in
        let own = process_edge-prefix t child_id parent_id in
        let child = get_session child_id st.store in
        let adopted = adopt parent_id child st.store in
        elim (Bool-cases (parent_id == "" || child_id == "")) [
          | inl outside ↦ rw outside v
          | inr inside ↦
              let has_parent : parent_id ≢ "" = ground (arith, eq_iff parent_id "") in
              let has_child : child_id ≢ "" = ground (arith, eq_iff child_id "") in
              rw inside (
                upsert-Covers edge st.seen_edges adopted (λ z. cc (own_prefix edge.id "" own z))
                  (process_edge-Spawned (now adopted) p listed_ has_parent has_child)
                  (λ id e m found.
                    v id e m (sym (ap (get id) (edges-adopt parent_id child st.store)) ∙ found)))
        ]

    link_processes-Covers :
        (rest : List Process) (st : Linked)
        → ((p : Process) → In p rest → IsListed p)
        → Covers st
        → Covers (link_processes t pids rest st)
    unfolding link_processes
    link_processes-Covers [] st part v = v
    link_processes-Covers (p ∷ rest) st part v =
        link_processes-Covers rest (link_process t pids p st) (λ q m. part q (inr m))
          (link_process-Covers p st (part p (inl refl)) v)

  -- The edges that the second loop has seen, once it is through.
  pub linked-Covers :
      (s : Store)
      → let scan = scan_processes os t procs (start_scan s) in
        Covers (
          link_processes t scan.pids scan.inferred (record { seen_edges = []; store = scan.store }))
  linked-Covers s =
      let scan = scan_processes os t procs (start_scan s) in
      let v =
        scan_processes-Traces procs (start_scan s) (λ p m. m)
          (record { pids = λ pid id m. absurd m; inferred = λ p m. absurd m }) in
      link_processes-Covers scan.pids v.pids scan.inferred
        (record { seen_edges = []; store = scan.store }) v.inferred (λ id e m found. absurd m)
