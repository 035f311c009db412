-- ===== src/Api/Reconcile/Spawned/Left.antt =====
-- internal/api/handler.go: the edges between processes that are left by `reconcileProcessSessions`.
use the_score.Base.{
  true, false, ◌&&◌, String, List, [], ◌∷◌, none, some, ◌==◌, ◌≡◌, refl, sym, ◌∙◌, ap, subst, arith,
  eq_iff, if◌then◌else◌, In, any, contains_iff, starts_with, ltb,
}
use the_score.Base.Sort.{In-sort}
use the_score.Base.Table.{get, values, key-get, In-values, get-remove, IsKeyed}
use the_score.Model.{Edge, Process}
use the_score.Runtime.{Os}
use the_score.Store.{Store, now}
use the_score.Store.Sessions.{list_sessions}
use the_score.Store.Edges.{list_edges, remove_edge}
use the_score.Store.Edges.Laws.{graph-remove_edge}
use the_score.Store.Invariant.{IsValid, tick-IsValid, edge_id}
use the_score.Api.Reconcile.{
  listed, Linked, scan_processes, link_processes, sweep_sessions, is_stale_edge, sweep_edges,
  edge_prefix, all_sessions, start_scan, reconcile_listed, reconcile,
}
use the_score.Api.Reconcile.Valid.{scan_processes-IsValid, link_processes-IsValid}
use the_score.Api.Reconcile.Reported.{edges-sweep_sessions}
use the_score.Api.Reconcile.Seen.{any-false}
use the_score.Api.Reconcile.Spawned.{Spawned, linked-Covers}

-- What the fourth loop leaves: an edge that it visits goes if it is stale.
get-sweep_edges :
    (seen : List String) (es : List Edge) (id : String) (s : Store)
    → get id (sweep_edges seen es s).edges
      ≡ (if any (λ y. y.id == id && is_stale_edge seen y) es then none else get id s.edges)
unfolding sweep_edges
get-sweep_edges seen [] id s = refl
get-sweep_edges seen (y ∷ es) id s = ground (
  arith,
  (graph-remove_edge y.id s).edges,
  get-remove y.id id s.edges,
  get-sweep_edges seen es id (if is_stale_edge seen y then (remove_edge y.id s).0 else s),
)

-- An edge under the daemon's prefix that the fourth loop leaves was seen in the second.
survivor-seen :
    (seen : List String) (id : String) (e : Edge) (s : Store)
    → IsKeyed edge_id s.edges
    → get id (sweep_edges seen (list_edges s) s).edges ≡ some e
    → starts_with id edge_prefix ≡ true
    → In id seen × (get id s.edges ≡ some e)
unfolding list_edges is_stale_edge
survivor-seen seen id e s keyed h own =
    let visits = λ (y : Edge). y.id == id && is_stale_edge seen y in
    let es = list_edges s in
    let h' : (if any visits es then none else get id s.edges) ≡ some e =
      sym (get-sweep_edges seen es id s) ∙ h in
    let spared : any visits es ≡ false = ground arith in
    let there : get id s.edges ≡ some e = rw spared at h' in
    let same : e.id ≡ id = key-get edge_id id e s.edges keyed there in
    let here : get e.id s.edges ≡ some e = subst (λ k. get k s.edges ≡ some e) (sym same) there in
    let visited =
      (In-sort (λ (a : Edge) (b : Edge). ltb a.observed_at b.observed_at) e (values s.edges)).1
        ((In-values edge_id e s.edges keyed).1 here) in
    let fresh = any-false visits e es spared visited in
    let own' : starts_with e.id edge_prefix ≡ true =
      subst (λ k. starts_with k edge_prefix ≡ true) (sym same) own in
    ((contains_iff id seen).0 (ground (arith, fresh, eq_iff e.id id, same, own')), there)

-- After a reconciliation every edge under the daemon's own prefix joins the sessions of two processes
-- that were listed just now, of which the one names the other as its parent.
pub reconcile-Spawned :
    (os : Os) (procs : List Process) (id : String) (e : Edge) (s : Store)
    → IsValid s
    → starts_with id edge_prefix ≡ true
    → get id (reconcile os (listed procs) s).0.edges ≡ some e
    → Spawned os (now s) procs e
unfolding reconcile reconcile_listed
reconcile-Spawned os procs id e s v own h =
    let scan = scan_processes os (now s) procs (start_scan s) in
    let start : Linked = record { seen_edges = []; store = scan.store } in
    let linked = link_processes (now s) scan.pids scan.inferred start in
    let v1 = scan_processes-IsValid os (now s) procs (start_scan s) (tick-IsValid s v) in
    let v2 = link_processes-IsValid (now s) scan.pids scan.inferred start v1 in
    let sessions = list_sessions all_sessions linked.store in
    let swept = sweep_sessions scan.seen sessions linked.store in
    let same = edges-sweep_sessions scan.seen sessions linked.store in
    let left =
      survivor-seen linked.seen_edges id e swept (subst (IsKeyed edge_id) (sym same) v2.edges) h
        own in
    linked-Covers os (now s) procs s id e left.0 (sym (ap (get id) same) ∙ left.1)
