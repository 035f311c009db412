-- ===== src/Cli/Observe/Stored.antt =====
-- cmd/score/main.go: what `score observe-session` and `score run` leave in the daemon.
use Prim.Native.String.{count}
use the_score.Base.{
  false, String, Option, none, some, ◌≡◌, ◌≢◌, refl, ap, sym, subst, ◌==◌, arith, Bool-cases, inl,
  inr, eq_iff,
}
use the_score.Model.{Time, Session, Workspace, Edge, zero_session}
use the_score.Runtime.{Os}
use the_score.Store.{Store, now}
use the_score.Store.Sessions.{fill_session, get_session}
use the_score.Store.Invariant.{IsValid}
use the_score.Api.Reconcile.{Listing, is_inferred_process_session, inferred_in}
use the_score.Api.Handle.{decoded, decode_params, Reply, Json, Handler, read_method, Method}
use the_score.Api.Handle.Keeps.{handle-IsValid}
use the_score.Api.Handle.Survives.{handle-get_session}
use the_score.Api.Handle.Answers.{get_session-handle}
use the_score.Client.{Params, Wire, daemon_exchange, marshalled}
use the_score.Cli.{pure, ◌>>◌, Prog, Remote, client_remote, call_or_die}
use the_score.Cli.Keeps.{Keeps, bind-Keeps, call_or_die-Keeps, remote-Keeps, remote-handle}
use the_score.Cli.Observe.{
  Observed, observed_session, upsert_session, upsert_workspace, upsert_edge, when_set,
  sent_workspace, sent_edge, report_rest, observe, observe_or_die,
}

pub session_method-plain : ◌≢◌ {A = String} "observations/upsertSession" "events/subscribe"
session_method-plain e = omega (arith, ap count e)

pub workspace_method-plain : ◌≢◌ {A = String} "observations/upsertWorkspace" "events/subscribe"
workspace_method-plain e = omega (arith, ap count e)

pub edge_method-plain : ◌≢◌ {A = String} "observations/upsertEdge" "events/subscribe"
edge_method-plain e = omega (arith, ap count e)

workspace_method-upsert : read_method "observations/upsertWorkspace" ≢ some Method.upsert_session
unfolding read_method
workspace_method-upsert e = ground arith

workspace_method-remove : read_method "observations/upsertWorkspace" ≢ some Method.remove_session
unfolding read_method
workspace_method-remove e = ground arith

edge_method-upsert : read_method "observations/upsertEdge" ≢ some Method.upsert_session
unfolding read_method
edge_method-upsert e = ground arith

edge_method-remove : read_method "observations/upsertEdge" ≢ some Method.remove_session
unfolding read_method
edge_method-remove e = ground arith

observed_session-native :
    (time t : Time) (o : Observed)
    → is_inferred_process_session (fill_session t (observed_session time o)) ≡ false
unfolding is_inferred_process_session fill_session observed_session inferred_in
observed_session-native time t o = refl

module _ (handler : Handler) (os : Os) (json : Json) (listing : Listing) (wire : Wire) where
  -- The daemon as a command reaches it.
  abbrev remote : Remote
  remote = client_remote wire (daemon_exchange handler os json listing) none

  -- That the store is valid and holds a session.
  abbrev pub Holds : String → Session → Store → Type 0
  Holds id x s = IsValid s × (get_session id s ≡ some x)

  -- Every call of a method but `events/subscribe` keeps the store valid.
  pub call-IsValid :
      (method : String) (params : Option Params)
      → method ≢ "events/subscribe"
      → Keeps IsValid (call_or_die {A = Reply} remote (λ reply. decoded reply) method params)
  call-IsValid method params plain s v = call_or_die-Keeps IsValid remote _ method params s (
      remote-Keeps IsValid handler os json listing wire method plain params s
        (λ text. handle-IsValid handler os json method listing text s v) v)

  -- The calls that report a workspace or an edge keep the sessions that a client reported.
  report-Keeps :
      (method : String) (params : Option Params) (id : String) (x : Session)
      → is_inferred_process_session x ≡ false
      → method ≢ "events/subscribe"
      → read_method method ≢ some Method.upsert_session
      → read_method method ≢ some Method.remove_session
      → Keeps (Holds id x) (call_or_die {A = Reply} remote (λ reply. decoded reply) method params)
  report-Keeps method params id x native plain up gone s h =
      call_or_die-Keeps (Holds id x) remote _ method params s (
        remote-Keeps (Holds id x) handler os json listing wire method plain params s
          (λ text. (
            handle-IsValid handler os json method listing text s h.0,
            handle-get_session handler os json method listing text id x s h.0 h.1 native up gone,
          ))
          h)

  -- Reporting a session leaves it in the daemon, with the defaults of `UpsertSession`.
  pub upsert_session-Holds :
      (given : Session) (text : String) (s : Store)
      → IsValid s
      → wire.marshal (Params.session given) ≡ decoded text
      → decode_params zero_session json.session text ≡ decoded given
      → given.id ≢ ""
      → Holds given.id (fill_session (now s) given) (upsert_session remote given s).0
  unfolding upsert_session marshalled
  upsert_session-Holds given text s v sent read named =
      let e =
        remote-handle handler os json listing wire "observations/upsertSession" session_method-plain
          (some (Params.session given)) text s sent in
      call_or_die-Keeps (Holds given.id (fill_session (now s) given)) remote _
        "observations/upsertSession" (some (Params.session given)) s
        (subst (Holds given.id (fill_session (now s) given)) (sym e) (
          handle-IsValid handler os json "observations/upsertSession" listing text s v,
          get_session-handle handler os json listing text given s read named,
        ))

  upsert_workspace-Keeps :
      (id : String) (x : Session) (w : Workspace)
      → is_inferred_process_session x ≡ false
      → Keeps (Holds id x) (upsert_workspace remote w)
  unfolding upsert_workspace
  upsert_workspace-Keeps id x w native =
      report-Keeps "observations/upsertWorkspace" (some (Params.workspace w)) id x native
        workspace_method-plain workspace_method-upsert workspace_method-remove

  upsert_edge-Keeps :
      (id : String) (x : Session) (e : Edge)
      → is_inferred_process_session x ≡ false
      → Keeps (Holds id x) (upsert_edge remote e)
  unfolding upsert_edge
  upsert_edge-Keeps id x e native =
      report-Keeps "observations/upsertEdge" (some (Params.edge e)) id x native edge_method-plain
        edge_method-upsert edge_method-remove

  -- What follows the session, where there is something to report.
  pub when_set-Keeps :
      (P : Store → Type 0) (value : String) (m : Prog Reply) (reply : Reply)
      → Keeps P m
      → Keeps P (when_set remote value m reply)
  when_set-Keeps P value m reply keeps s h = elim (Bool-cases (value == "")) [
    | inl unset ↦ rw unset h
    | inr set ↦ rw set (keeps s h)
  ]

  pub reported-Keeps {ℓ} :
      {A : Type ℓ} (P : Store → Type 0) (value : String) (m : Prog Reply) (reply : Reply)
      (rest : Prog A)
      → Keeps P m
      → Keeps P rest
      → Keeps P (when_set remote value m reply >> rest)
  reported-Keeps P value m reply rest reports keeps s h =
      bind-Keeps P (when_set remote value m reply) (λ r. rest) s (λ r. keeps)
        (when_set-Keeps P value m reply reports s h)

  report_rest-Keeps :
      (workspace id parent source : String) (x : Session) (reply : Reply)
      → is_inferred_process_session x ≡ false
      → Keeps (Holds id x) (report_rest remote workspace id parent source reply)
  unfolding report_rest
  report_rest-Keeps workspace id parent source x reply native =
      let w = sent_workspace workspace id source in
      let e = sent_edge id parent source in
      reported-Keeps (Holds id x) workspace (upsert_workspace remote w) reply
        (when_set remote parent (upsert_edge remote e) reply >> pure reply)
        (upsert_workspace-Keeps id x w native)
        (reported-Keeps (Holds id x) parent (upsert_edge remote e) reply (pure reply)
          (upsert_edge-Keeps id x e native) (λ t h. h))

  -- `score observe-session` with an id leaves the session that it was told of in the daemon, with the
  -- defaults of `UpsertSession`, whatever becomes of its reports of a workspace and an edge. The store
  -- must be valid and the session be carried to the daemon as it is.
  pub observe-get_session :
      (time : Time) (o : Observed) (text : String) (s : Store)
      → IsValid s
      → wire.marshal (Params.session (observed_session time o)) ≡ decoded text
      → decode_params zero_session json.session text ≡ decoded (observed_session time o)
      → o.id ≢ ""
      → get_session o.id (observe_or_die remote time o s).0
        ≡ some (fill_session (now s) (observed_session time o))
  unfolding observe_or_die observe observed_session
  observe-get_session time o text s v sent read named =
      let x = fill_session (now s) (observed_session time o) in
      let native = observed_session-native time (now s) o in
      let named' : (o.id == "") ≡ false = ground (arith, eq_iff o.id "") in
      let p : Holds o.id x (observe remote time o s).0 =
        bind-Keeps (Holds o.id x) (upsert_session remote (observed_session time o))
          (report_rest remote o.workspace o.id o.parent o.source) s
          (λ reply. report_rest-Keeps o.workspace o.id o.parent o.source x reply native)
          (upsert_session-Holds (observed_session time o) text s v sent read named) in
      rw named' p.1
