-- ===== src/Api/Reconcile/Shows.antt =====
-- internal/api/handler.go: the first loop of `reconcileProcessSessions`, and the session of a listed
-- process.
use the_score.Base.{
  true, String, List, [], ◌∷◌, Option, none, some, ◌==◌, ◌≡◌, ◌≢◌, refl, sym, ◌∙◌, ap, subst, arith,
  eq_iff, ◌⊎◌, Bool-cases, Option-cases, inl, inr, In, contains,
}
use the_score.Model.{Time, Session, Process}
use the_score.Model.Status
use the_score.Model.Confidence
use the_score.Runtime.{Os}
use the_score.Runtime.Infer.{infer_agent_process_session, process_session, process_meta}
use the_score.Runtime.Infer.Sound.{infer-eq-some}
use the_score.Store.{Store, now}
use the_score.Store.Sessions.{upsert_session, get_session, fill_session}
use the_score.Store.Sessions.Laws.{get_session-upsert_session}
use the_score.Api.Reconcile.Native.{get_session-upsert_workspace}
use the_score.Api.Reconcile.Seen.{with_cwd-id, Runs}
use the_score.Api.Reconcile.{
  is_inferred_process_session, inferred_in, find_field, as_bool, Scan, with_cwd, session_workspace,
  admit, admit_over, scan_found, scan_process, scan_processes,
}

-- What a stored session has of the session that was inferred from a process.
abbrev pub Bears : Session → Session → Type 0
Bears y x =
    (x.title ≡ y.title)
    × (x.summary ≡ y.summary)
    × (x.status ≡ y.status)
    × (x.status_detail ≡ y.status_detail)
    × (x.confidence ≡ y.confidence)
    × (x.last_activity_at ≡ y.last_activity_at)
    × (x.runtime_ids ≡ y.runtime_ids)
    × (x.meta ≡ y.meta)

inferred_meta :
    (proc : Process) (t : Time) (source : String)
    → is_inferred_process_session (process_session proc t source) ≡ true
unfolding is_inferred_process_session inferred_in find_field as_bool process_session process_meta
inferred_meta proc t source = refl

module _ (os : Os) (t : Time) (procs : List Process) (id : String) where
  -- The session bears what is inferred from a listed process with this id.
  abbrev pub Borne : Session → Type 0
  Borne x = (r : Runs os t procs id) × Bears r.session x

  -- The session that a lookup of the id finds is such a one.
  abbrev pub Shows : Store → Type 0
  Shows s = (x : Session) × (get_session id s ≡ some x) × Borne x

  Runs-inferred : (r : Runs os t procs id) → is_inferred_process_session r.session ≡ true
  Runs-inferred r =
      let (source, _, e) = infer-eq-some os r.proc t r.session r.is_agent in
      ap is_inferred_process_session e ∙ inferred_meta r.proc t source

  inferred-Borne : (x : Session) → Borne x → is_inferred_process_session x ≡ true
  unfolding is_inferred_process_session
  inferred-Borne x (r, b) =
      ap (λ m. inferred_in (find_field "process" m)) b.7
      ∙ unfold is_inferred_process_session in Runs-inferred r

  Runs-session :
      (r : Runs os t procs id)
      → (r.session.status ≡ Status.working)
        × (r.session.confidence ≡ Confidence.low)
        × (r.session.last_activity_at ≡ t)
  Runs-session r =
      let (source, _, e) = infer-eq-some os r.proc t r.session r.is_agent in
      rw e (unfold process_session in (refl, refl, refl))

  fill-Borne : (time : Time) (x : Session) → t ≢ 0 → Borne x → Borne (fill_session time x)
  unfolding fill_session
  fill-Borne time x nz (r, b) =
      let (status, confidence, last) = Runs-session r in
      let status' : x.status ≡ "working" = b.2 ∙ status in
      let confidence' : x.confidence ≡ "low" = b.4 ∙ confidence in
      let last' : x.last_activity_at ≡ t = b.5 ∙ last in
      (
        r,
        (
          b.0,
          b.1,
          rw status' (sym status),
          b.3,
          rw confidence' (sym confidence),
          ground (arith, last, last', nz),
          b.6,
          b.7,
        ),
      )

  -- A session under the id that is stored for a listed process is such a one.
  pub Shows-eq : (s s' : Store) → get_session id s' ≡ get_session id s → Shows s → Shows s'
  Shows-eq s s' e (x, there, b) = (x, e ∙ there, b)

  module _ (nz : t ≢ 0) (named : id ≢ "") where
    pub upsert-Shows :
        (y : Session) (s : Store) → y.id ≡ id → Borne y → Shows (upsert_session y s).0
    upsert-Shows y s e b = (
      fill_session (now s) y,
      ground (arith, get_session-upsert_session y id s, eq_iff y.id id, eq_iff y.id "", e, named),
      fill-Borne (now s) y nz b,
    )

    get_session-admit :
        (time : Time) (proc : Process) (y : Session) (st : Scan)
        → get_session id (admit time proc y st).store ≡ get_session id (upsert_session y st.store).0
    unfolding admit
    get_session-admit time proc y st = ground (
      arith,
      get_session-upsert_workspace id (session_workspace time y) (upsert_session y st.store).0,
    )

    -- The session is shown, and was seen.
    abbrev pub Seen : Scan → Type 0
    Seen st = Shows st.store × (contains id st.seen ≡ true)

    admit-Seen :
        (time : Time) (proc : Process) (y : Session) (st : Scan)
        → y.id ≡ id
        → Borne y
        → Seen (admit time proc y st)
    admit-Seen time proc y st e b = (
      Shows-eq (upsert_session y st.store).0 (admit time proc y st).store
          (get_session-admit time proc y st) (upsert-Shows y st.store e b),
      unfold admit in ground (arith, eq_iff y.id id, e),
    )

    admit_other :
        (time : Time) (proc : Process) (y : Session) (st : Scan)
        → y.id ≢ id
        → get_session id (admit time proc y st).store ≡ get_session id st.store
    admit_other time proc y st ne = ground (
      arith,
      get_session-admit time proc y st,
      get_session-upsert_session y id st.store,
      eq_iff y.id id,
    )

    -- No client has reported a session under the id.
    abbrev pub NotReported : Store → Type 0
    NotReported s = (x : Session) → get_session id s ≡ some x → is_inferred_process_session x ≡ true

    Shows-NotReported : (s : Store) → Shows s → NotReported s
    Shows-NotReported s (x, there, b) z there' =
        let same : z ≡ x = ground (arith, there, there') in
        ap is_inferred_process_session same ∙ inferred-Borne x b

    admit_over-Seen :
        (time : Time) (proc : Process) (y : Session) (o : Option Session) (st : Scan)
        → y.id ≡ id
        → Borne y
        → NotReported st.store
        → get_session id st.store ≡ o
        → Seen (admit_over time proc y o st)
    unfolding admit_over
    admit_over-Seen time proc y none st e b free there = admit-Seen time proc y st e b
    admit_over-Seen time proc y (some old) st e b free there =
        rw (free old there) (admit-Seen time proc (record y { started_at = old.started_at }) st e b)

    with_cwd-Bears : (proc : Process) (y : Session) → Bears y (with_cwd os proc y).1
    unfolding with_cwd
    with_cwd-Bears proc y = ground arith

    -- The round of a process from which a session with the id is inferred.
    own_round :
        (proc : Process) (y : Session) (st : Scan)
        → In proc procs
        → infer_agent_process_session os proc t ≡ some y
        → y.id ≡ id
        → NotReported st.store
        → Seen (scan_process os t proc st)
    unfolding scan_process scan_found
    own_round proc y st m agent e free =
        let found = with_cwd os proc y in
        let own : found.1.id ≡ id = with_cwd-id os proc y ∙ e in
        let r : Runs os t procs id = record {
          proc = proc;
          session = y;
          is_listed = m;
          is_agent = agent;
          has_id = e;
        } in
        rw agent (
          admit_over-Seen t found.0 found.1 (get_session found.1.id st.store) st own
            (r, with_cwd-Bears proc y) free (ap (λ k. get_session k st.store) (sym own)))

    admit_over_other :
        (time : Time) (proc : Process) (y : Session) (o : Option Session) (st : Scan)
        → y.id ≢ id
        → (get_session id (admit_over time proc y o st).store ≡ get_session id st.store)
          × (contains id st.seen ≡ true → contains id (admit_over time proc y o st).seen ≡ true)
    unfolding admit_over
    admit_over_other time proc y none st ne =
        (admit_other time proc y st ne, λ m. unfold admit in ground (arith, m))
    admit_over_other time proc y (some old) st ne =
        let later = record y { started_at = old.started_at } in
        (ground (arith, admit_other time proc later st ne), λ m. unfold admit in ground (arith, m))

    -- A round leaves the session under the id as it is, or is one of a process with the id.
    scan_process-cases :
        (proc : Process) (st : Scan)
        → ((y : Session) × (infer_agent_process_session os proc t ≡ some y) × (y.id ≡ id))
          ⊎ ((get_session id (scan_process os t proc st).store ≡ get_session id st.store)
              × (contains id st.seen ≡ true → contains id (scan_process os t proc st).seen ≡ true))
    unfolding scan_process scan_found
    scan_process-cases proc st = elim (Option-cases (infer_agent_process_session os proc t)) [
      | inl missing ↦ inr (rw missing (refl, λ m. m))
      | inr (y, agent) ↦ elim (Bool-cases (y.id == id)) [
        | inl same ↦ inl (y, agent, (eq_iff y.id id).0 same)
        | inr differs ↦
            let found = with_cwd os proc y in
            inr (
              rw agent (
                admit_over_other t found.0 found.1 (get_session found.1.id st.store) st
                  (ground (arith, with_cwd-id os proc y, eq_iff y.id id))))
      ]
    ]

    scan_process-NotReported :
        (proc : Process) (st : Scan)
        → In proc procs
        → NotReported st.store
        → NotReported (scan_process os t proc st).store
    scan_process-NotReported proc st m free = elim (scan_process-cases proc st) [
      | inl (y, agent, e) ↦
          Shows-NotReported (scan_process os t proc st).store (own_round proc y st m agent e free).0
      | inr (same, seen) ↦ λ x there. free x (sym same ∙ there)
    ]

    scan_process-Seen :
        (proc : Process) (st : Scan) → In proc procs → Seen st → Seen (scan_process os t proc st)
    scan_process-Seen proc st m h = elim (scan_process-cases proc st) [
      | inl (y, agent, e) ↦ own_round proc y st m agent e (Shows-NotReported st.store h.0)
      | inr (same, seen) ↦ (Shows-eq st.store (scan_process os t proc st).store same h.0, seen h.1)
    ]

    scan_processes-Seen :
        (ps : List Process) (st : Scan)
        → ((p : Process) → In p ps → In p procs)
        → Seen st
        → Seen (scan_processes os t ps st)
    unfolding scan_processes
    scan_processes-Seen [] st within h = h
    scan_processes-Seen (p ∷ ps) st within h =
        scan_processes-Seen ps (scan_process os t p st) (λ q m. within q (inr m))
          (scan_process-Seen p st (within p (inl refl)) h)

    pub scan_listed-Seen :
        (ps : List Process) (proc : Process) (y : Session) (st : Scan)
        → ((p : Process) → In p ps → In p procs)
        → In proc ps
        → infer_agent_process_session os proc t ≡ some y
        → y.id ≡ id
        → NotReported st.store
        → Seen (scan_processes os t ps st)
    unfolding scan_processes
    scan_listed-Seen [] proc y st within m agent e free = absurd m
    scan_listed-Seen (p ∷ ps) proc y st within (inl here) agent e free =
        let agent' = subst (λ q. infer_agent_process_session os q t ≡ some y) here agent in
        scan_processes-Seen ps (scan_process os t p st) (λ q m. within q (inr m))
          (own_round p y st (within p (inl refl)) agent' e free)
    scan_listed-Seen (p ∷ ps) proc y st within (inr later) agent e free =
        scan_listed-Seen ps proc y (scan_process os t p st) (λ q m. within q (inr m)) later agent e
          (scan_process-NotReported p st (within p (inl refl)) free)
