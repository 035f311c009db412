-- ===== src/Api/Reconcile/Live.antt =====
-- internal/api/handler.go: `reconcileProcessSessions` as a whole, and the session of a listed process.
use the_score.Base.{
  true, false, ◌&&◌, ◌||◌, String, List, [], ◌∷◌, some, ◌==◌, ◌≡◌, ◌≢◌, refl, sym, ◌∙◌, subst,
  arith, eq_iff, ◌⊎◌, Bool-cases, Option-cases, inl, inr, ℤ, In, any, contains,
}
use the_score.Base.Table.{key-get}
use the_score.Model.{Time, Session, Process}
use the_score.Runtime.{Os}
use the_score.Runtime.Infer.{infer_agent_process_session}
use the_score.Runtime.Infer.Sound.{infer-eq-some, process_session-id-ne-nil}
use the_score.Store.{Store, now}
use the_score.Store.Sessions.{upsert_session, get_session, list_sessions}
use the_score.Store.Sessions.Laws.{get_session-upsert_session}
use the_score.Store.Edges.{list_edges}
use the_score.Store.Invariant.{IsValid, tick-IsValid, session_id}
use the_score.Api.Reconcile.Valid.{scan_processes-IsValid, link_process-IsValid}
use the_score.Api.Reconcile.Native.{get_session-upsert_edge, reconcile-get_session}
use the_score.Api.Reconcile.Seen.{get_session-sweep_sessions, get_session-sweep_edges}
use the_score.Api.Reconcile.Shows.{Borne, Shows, Shows-eq, upsert-Shows, scan_listed-Seen}
use the_score.Api.Reconcile.{
  is_inferred_process_session, listed, session_of, scan_processes, root_below, adopt, process_edge,
  Linked, link_process, link_processes, is_stale, sweep_sessions, all_sessions, start_scan,
  reconcile_listed, reconcile,
}

module _ (os : Os) (t : Time) (procs : List Process) (id : String) (nz : t ≢ 0)
    (named : id ≢ "") where
  -- Below its parent the session is still what is inferred from the process.
  adopted-Shows :
      (parent_id child_id : String) (child : Session) (s : Store)
      → IsValid s
      → get_session child_id s ≡ some child
      → Shows os t procs id s
      → Shows os t procs id (adopt parent_id (some child) s)
  unfolding adopt
  adopted-Shows parent_id child_id child s v there (x, here, b) =
      let root = root_below parent_id (get_session parent_id s) in
      let placed = record child { parent_session_id = parent_id; root_session_id = root } in
      let own : child.id ≡ child_id =
        key-get session_id child_id child s.sessions v.sessions (unfold get_session in there) in
      elim (Bool-cases (is_inferred_process_session child)) [
        | inr reported ↦ rw reported (x, here, b)
        | inl inferred ↦ rw inferred (elim (Bool-cases (child.id == id)) [
          | inl same ↦
              let e : child.id ≡ id = (eq_iff child.id id).0 same in
              let there' : get_session id s ≡ some child =
                subst (λ k. get_session k s ≡ some child) (sym own ∙ e) there in
              let one : x ≡ child = ground (arith, here, there') in
              upsert-Shows os t procs id nz named placed s e (subst (Borne os t procs id) one b)
          | inr other ↦
              Shows-eq os t procs id s (upsert_session placed s).0
                (ground (arith, get_session-upsert_session placed id s, other)) (x, here, b)
        ])
      ]

  adopt-Shows :
      (parent_id child_id : String) (s : Store)
      → IsValid s
      → Shows os t procs id s
      → Shows os t procs id (adopt parent_id (get_session child_id s) s)
  adopt-Shows parent_id child_id s v h = elim (Option-cases (get_session child_id s)) [
    | inl missing ↦ rw missing (unfold adopt in h)
    | inr (child, there) ↦ rw there (adopted-Shows parent_id child_id child s v there h)
  ]

  link_process-Shows :
      (pids : List (ℤ × String)) (proc : Process) (st : Linked)
      → IsValid st.store
      → Shows os t procs id st.store
      → Shows os t procs id (link_process t pids proc st).store
  unfolding link_process
  link_process-Shows pids proc st v h =
      let parent_id = session_of proc.ppid pids in
      let child_id = session_of proc.pid pids in
      let adopted = adopt parent_id (get_session child_id st.store) st.store in
      elim (Bool-cases (parent_id == "" || child_id == "")) [
        | inl outside ↦ rw outside h
        | inr inside ↦ rw inside (
            Shows-eq os t procs id adopted _
              (get_session-upsert_edge id (process_edge t child_id parent_id) adopted)
              (adopt-Shows parent_id child_id st.store v h))
      ]

  link_processes-Shows :
      (pids : List (ℤ × String)) (ps : List Process) (st : Linked)
      → IsValid st.store
      → Shows os t procs id st.store
      → Shows os t procs id (link_processes t pids ps st).store
  unfolding link_processes
  link_processes-Shows pids [] st v h = h
  link_processes-Shows pids (p ∷ ps) st v h =
      link_processes-Shows pids ps (link_process t pids p st) (link_process-IsValid t pids p st v)
        (link_process-Shows pids p st v h)

  none_stale :
      (seen : List String) (ys : List Session)
      → contains id seen ≡ true
      → any (λ y. y.id == id && is_stale seen y) ys ≡ false
  unfolding is_stale
  none_stale seen [] m = refl
  none_stale seen (y ∷ ys) m = ground (arith, none_stale seen ys m, eq_iff y.id id, m)

  -- The third loop leaves what was seen.
  sweep_sessions-Shows :
      (seen : List String) (ys : List Session) (s : Store)
      → contains id seen ≡ true
      → Shows os t procs id s
      → Shows os t procs id (sweep_sessions seen ys s)
  sweep_sessions-Shows seen ys s m h =
      Shows-eq os t procs id s (sweep_sessions seen ys s)
        (rw (get_session-sweep_sessions seen ys id s, none_stale seen ys m) refl) h

-- An inferred id is never empty.
inferred_id :
    (os : Os) (proc : Process) (t : Time) (y : Session)
    → infer_agent_process_session os proc t ≡ some y
    → y.id ≢ ""
inferred_id os proc t y h =
    let (source, _, e) = infer-eq-some os proc t y h in
    rw e (process_session-id-ne-nil proc t source)

-- Where no client has reported a session under the id, the loops leave one that shows the process.
reconcile-Shows :
    (os : Os) (procs : List Process) (proc : Process) (y : Session) (s : Store)
    → IsValid s
    → now s ≢ 0
    → In proc procs
    → infer_agent_process_session os proc (now s) ≡ some y
    → ((x : Session) → get_session y.id s ≡ some x → is_inferred_process_session x ≡ true)
    → Shows os (now s) procs y.id (reconcile os (listed procs) s).0
unfolding reconcile reconcile_listed
reconcile-Shows os procs proc y s v nz m agent free =
    let named = inferred_id os proc (now s) y agent in
    let scan = scan_processes os (now s) procs (start_scan s) in
    let start : Linked = record { seen_edges = []; store = scan.store } in
    let linked = link_processes (now s) scan.pids scan.inferred start in
    let v1 = scan_processes-IsValid os (now s) procs (start_scan s) (tick-IsValid s v) in
    let ys = list_sessions all_sessions linked.store in
    let swept = sweep_sessions scan.seen ys linked.store in
    let seen =
      scan_listed-Seen os (now s) procs y.id nz named procs proc y (start_scan s) (λ p h. h) m agent
        refl (λ x there. free x (unfold get_session in there)) in
    Shows-eq os (now s) procs y.id swept _
      (get_session-sweep_edges linked.seen_edges (list_edges swept) y.id swept)
      (sweep_sessions-Shows os (now s) procs y.id nz named scan.seen ys linked.store seen.1 (
        link_processes-Shows os (now s) procs y.id nz named scan.pids scan.inferred start v1
          seen.0))

-- Where the process table can be read and the clock is not at the zero time, every process of an agent
-- has a session afterwards, under the id that is inferred from it. It is the session that a client
-- had reported under that id, as it was; or it has the title, summary, status with its detail,
-- confidence, runtime ids and meta that are inferred, in this very reconciliation, from a listed
-- process with the id, and was last active now. The store must be valid.
pub reconcile-infer :
    (os : Os) (procs : List Process) (proc : Process) (y : Session) (s : Store)
    → IsValid s
    → now s ≢ 0
    → In proc procs
    → infer_agent_process_session os proc (now s) ≡ some y
    → ((x : Session) × (get_session y.id s ≡ some x)
        × (is_inferred_process_session x ≡ false)
        × (get_session y.id (reconcile os (listed procs) s).0 ≡ some x))
      ⊎ Shows os (now s) procs y.id (reconcile os (listed procs) s).0
reconcile-infer os procs proc y s v nz m agent = elim (Option-cases (get_session y.id s)) [
  | inl missing ↦
      inr
        (reconcile-Shows os procs proc y s v nz m agent (λ x there. ground (arith, missing, there)))
  | inr (x, there) ↦ elim (Bool-cases (is_inferred_process_session x)) [
    | inl inferred ↦ inr (
        reconcile-Shows os procs proc y s v nz m agent
          (λ z there'. ground (arith, there, there', inferred)))
    | inr native ↦
        inl (x, there, native, reconcile-get_session os (listed procs) y.id x s v there native)
  ]
]
