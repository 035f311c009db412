-- ===== src/Cli/Run/Reported.antt =====
-- cmd/score/main.go: what `score run` has reported when it ends.
use Prim.Native.String.{count}
use the_score.Base.{String, [], ◌∷◌, none, some, ◌≡◌, ◌≢◌, refl, ap, sym, subst, arith, ℤ}
use the_score.Strings.{◌⧺◌}
use the_score.Strings.Words.{join}
use the_score.Strings.Numbers.{itoa}
use the_score.Model.{Time, Session, zero_session}
use the_score.Model.Status
use the_score.Runtime.{Os}
use the_score.Store.{Store, now}
use the_score.Store.Sessions.{fill_session, get_session}
use the_score.Store.Invariant.{IsValid}
use the_score.Api.Reconcile.{Listing}
use the_score.Api.Handle.{decoded, malformed, decode_params, Reply, Json, Handler}
use the_score.Client.{Params, Wire, daemon_exchange}
use the_score.Cli.{
  Prog, Ending, returned, exited, then_with, ◌>>=◌, pure, die, Remote, client_remote, call_or_die,
}
use the_score.Cli.Keeps.{Keeps, bind-Keeps}
use the_score.Cli.Observe.{
  upsert_session, upsert_workspace, upsert_edge, when_set, sent_workspace, sent_edge,
}
use the_score.Cli.Observe.Stored.{
  Holds, call-IsValid, when_set-Keeps, upsert_session-Holds, session_method-plain,
  workspace_method-plain, edge_method-plain,
}
use the_score.Cli.Run.{Machine, Job, run_session, verdict, finish_job, start_job, run_job}

-- Whether a program that starts from a valid store can only return with this of its value and store.
abbrev Returns {ℓ} : {A : Type ℓ} → (A → Store → Type 0) → Prog A → Type ℓ
Returns Q m = (s : Store) → IsValid s → (a : _) → (m s).1 ≡ returned a → Q a (m s).0

then_with-Returns {ℓ κ} :
    {A : Type ℓ} {B : Type κ} (Q : B → Store → Type 0) (f : A → Prog B) (s : Store) (e : Ending A)
    (b : B)
    → ((a : A) → Returns Q (f a))
    → IsValid s
    → (then_with f s e).1 ≡ returned b
    → Q b (then_with f s e).0
then_with-Returns Q f s (returned a) b rest v r = rest a s v b r
then_with-Returns Q f s (exited status message) b rest v r = absurd (ground arith)

bind-Returns {ℓ κ} :
    {A : Type ℓ} {B : Type κ} (Q : B → Store → Type 0) (m : Prog A) (f : A → Prog B)
    → Keeps IsValid m
    → ((a : A) → Returns Q (f a))
    → Returns Q (m >>= f)
bind-Returns Q m f keeps rest s v b r = then_with-Returns Q f (m s).0 (m s).1 b rest (keeps s v) r

module _ (json : Json) (wire : Wire) where
  -- That encoding/json carries a session to the daemon as it is.
  abbrev pub Carries : Session → Type 0
  Carries x =
      (text : String) × (wire.marshal (Params.session x) ≡ decoded text)
      × (decode_params zero_session json.session text ≡ decoded x)

module _ (machine : Machine) (job : Job) where
  -- The last report.
  abbrev pub last : (pid : ℤ) → Session
  last pid =
      let v = verdict (join " " job.command) machine.stopped machine.waited in
      run_session job (("process:" ⧺ itoa pid) ∷ []) v.status v.detail machine.started_at
        (some machine.ended_at) machine.finished_at

  -- The report of a command that does not start.
  abbrev pub unstarted : String → Session
  unstarted message =
      run_session job [] Status.failed ("start failed: " ⧺ message) machine.started_at
        (some machine.ended_at) machine.reported_at

pub health_method-plain : ◌≢◌ {A = String} "health/check" "events/subscribe"
health_method-plain e = omega (arith, ap count e)

module _ (handler : Handler) (os : Os) (json : Json) (listing : Listing) (wire : Wire)
    (machine : Machine) (job : Job) (named : job.id ≢ "") where
  -- The daemon as the command reaches it.
  abbrev remote : Remote
  remote = client_remote wire (daemon_exchange handler os json listing) none

  -- The code of the verdict, and a session with its status.
  abbrev pub Reported : Session → ℤ → Store → Type 0
  Reported x code s =
      (code ≡ (verdict (join " " job.command) machine.stopped machine.waited).code)
      × ((time : Time) × (get_session job.id s ≡ some (fill_session time x)))

  then_pure :
      (x : Session) (code b : ℤ) (e : Ending Reply) (s : Store)
      → code ≡ (verdict (join " " job.command) machine.stopped machine.waited).code
      → ((time : Time) × (get_session job.id s ≡ some (fill_session time x)))
      → (then_with (λ reply. pure code) s e).1 ≡ returned b
      → Reported x b (then_with (λ reply. pure code) s e).0
  then_pure x code b (returned reply) s c h r = (ground arith, h)
  then_pure x code b (exited status message) s c h r = absurd (ground arith)

  finish-Returns :
      (pid : ℤ)
      → Carries json wire (last machine job pid)
      → Returns
          (Reported (last machine job pid))
          (finish_job remote machine job ("process:" ⧺ itoa pid))
  unfolding finish_job run_session
  finish-Returns pid carries s v b r =
      then_pure (last machine job pid) _ b (upsert_session remote (last machine job pid) s).1
        (upsert_session remote (last machine job pid) s).0 refl
        (
          now s,
          (upsert_session-Holds handler os json listing wire (last machine job pid) carries.0 s v
              carries.1 carries.2 named).1,
        )
        r

  placed-Keeps :
      Keeps IsValid (upsert_workspace remote (sent_workspace job.workspace job.id job.source))
  unfolding upsert_workspace
  placed-Keeps =
      call-IsValid handler os json listing wire "observations/upsertWorkspace" _
        workspace_method-plain

  linked-Keeps :
      (reply : Reply)
      → Keeps IsValid (
          when_set remote job.parent
            (upsert_edge remote (sent_edge job.id job.parent job.source))
            reply)
  unfolding upsert_edge
  linked-Keeps reply =
      when_set-Keeps handler os json listing wire IsValid job.parent
        (upsert_edge remote (sent_edge job.id job.parent job.source)) reply
        (call-IsValid handler os json listing wire "observations/upsertEdge" _ edge_method-plain)

  session-Keeps : (x : Session) → Keeps IsValid (upsert_session remote x)
  unfolding upsert_session
  session-Keeps x =
      call-IsValid handler os json listing wire "observations/upsertSession" _ session_method-plain

  start-Returns :
      (pid : ℤ)
      → Carries json wire (last machine job pid)
      → Returns (Reported (last machine job pid)) (start_job remote machine job (decoded pid))
  unfolding start_job
  start-Returns pid carries =
      bind-Returns (Reported (last machine job pid)) (upsert_session remote _) (λ reply. _)
        (session-Keeps _)
        (λ reply.
          bind-Returns (Reported (last machine job pid))
            (upsert_workspace remote (sent_workspace job.workspace job.id job.source)) (λ r. _)
            placed-Keeps
            (λ r.
              bind-Returns (Reported (last machine job pid))
                (when_set remote job.parent
                  (upsert_edge remote (sent_edge job.id job.parent job.source)) reply)
                (λ r. finish_job remote machine job ("process:" ⧺ itoa pid)) (linked-Keeps reply)
                (λ r. finish-Returns pid carries)))

  -- When `score run` returns after its command was started, its exit code is that of the verdict on
  -- how the command ended, and the daemon holds the session with the status and the detail of that
  -- verdict, its end and the process. The store must be valid, and the session have an id and be
  -- carried to the daemon as it is.
  pub run_job-Reported :
      (pid code : ℤ) (s : Store)
      → IsValid s
      → machine.start ≡ decoded pid
      → Carries json wire (last machine job pid)
      → (run_job remote machine job s).1 ≡ returned code
      → Reported (last machine job pid) code (run_job remote machine job s).0
  unfolding run_job
  run_job-Reported pid code s v started carries r =
      bind-Returns (Reported (last machine job pid)) (call_or_die remote _ "health/check" none)
        (λ reply. start_job remote machine job machine.start)
        (call-IsValid handler os json listing wire "health/check" none health_method-plain)
        (λ reply.
          subst
            (λ start.
              Returns (Reported (last machine job pid)) (start_job remote machine job start))
            (sym started) (start-Returns pid carries))
        s v code r

  -- The report of a command that does not start is what the daemon holds.
  pub get_session-start_job :
      (message : String) (s : Store)
      → IsValid s
      → Carries json wire (unstarted machine job message)
      → get_session job.id (start_job remote machine job (malformed message) s).0
        ≡ some (fill_session (now s) (unstarted machine job message))
  unfolding start_job run_session
  get_session-start_job message s v carries =
      (bind-Keeps
        (Holds handler os json listing wire job.id
          (fill_session (now s) (unstarted machine job message)))
        (upsert_session remote (unstarted machine job message)) (λ reply. die {A = ℤ} message) s
        (λ reply t h. h)
        (upsert_session-Holds handler os json listing wire (unstarted machine job message) carries.0
          s v carries.1 carries.2 named)).1
