-- ===== src/Cli/Inspect/Found.antt =====
-- cmd/score/main.go: what `score inspect` prints.
use Prim.Native.String.{count}
use the_score.Base.{String, none, some, ◌≡◌, ◌≢◌, refl, ap, arith, ℤ}
use the_score.Strings.{◌⧺◌}
use the_score.Model.{Session}
use the_score.Runtime.{Os}
use the_score.Store.{Store}
use the_score.Store.Sessions.{get_session}
use the_score.Api.Reconcile.{Listing}
use the_score.Api.Handle.{decoded, decode_params, Reply, Json, result, error, Handler, handle}
use the_score.Api.Handle.Errors.{handle-error}
use the_score.Api.Handle.Answers.{handle-get_session_stored}
use the_score.Client.{Params, Wire, daemon_exchange, marshalled}
use the_score.Client.Calls.{outcome_answer-result}
use the_score.Cli.{
  returned, exited, Output, Remote, client_remote, call_err, ended_call, read_answer, read_reply,
}
use the_score.Cli.Keeps.{remote-answered}
use the_score.Cli.Inspect.{inspect_id, inspect_any, inspect_as, inspected}

sessions-plain : ◌≢◌ {A = String} "sessions/get" "events/subscribe"
sessions-plain e = omega (arith, ap count e)

workspaces-plain : ◌≢◌ {A = String} "workspaces/get" "events/subscribe"
workspaces-plain e = omega (arith, ap count e)

processes-plain : ◌≢◌ {A = String} "processes/get" "events/subscribe"
processes-plain e = omega (arith, ap count e)

module _ (handler : Handler) (os : Os) (json : Json) (listing : Listing) (wire : Wire)
    (id text : String) (sent : wire.marshal (Params.id id) ≡ decoded text) where
  abbrev remote : Remote
  remote = client_remote wire (daemon_exchange handler os json listing) none

  -- A lookup that the daemon answers with an error prints nothing, and changes nothing.
  missed :
      (method message : String) (code : ℤ) (s : Store)
      → method ≢ "events/subscribe"
      → (handle handler os json method listing text s).1 ≡ error code message
      → inspect_as remote id method s ≡ (s, returned none)
  unfolding inspect_as call_err ended_call read_answer inspected marshalled
  missed method message code s plain e =
      let answer =
        remote-answered handler os json listing wire method plain (some (Params.id id)) text s
          sent in
      rw (answer, e, handle-error handler os json method listing text s code message e) refl

  -- A lookup whose result can be read prints it.
  hit :
      (method : String) (reply : Reply) (s : Store)
      → method ≢ "events/subscribe"
      → handle handler os json method listing text s ≡ (s, result reply)
      → wire.reread reply ≡ decoded reply
      → inspect_as remote id method s ≡ (s, returned (some (Output.json reply)))
  unfolding inspect_as call_err ended_call read_answer read_reply inspected marshalled
  hit method reply s plain e read =
      let answer =
        remote-answered handler os json listing wire method plain (some (Params.id id)) text s
          sent in
      rw (answer, e, outcome_answer-result wire reply read) refl

  -- Where the daemon answers each of the three lookups with an error, `score inspect` leaves the store
  -- as it is and exits with status 1 and the id that was not found. The id can be marshalled.
  pub inspect_id_missing :
      (m₁ m₂ m₃ : String) (c₁ c₂ c₃ : ℤ) (s : Store)
      → (handle handler os json "sessions/get" listing text s).1 ≡ error c₁ m₁
      → (handle handler os json "workspaces/get" listing text s).1 ≡ error c₂ m₂
      → (handle handler os json "processes/get" listing text s).1 ≡ error c₃ m₃
      → inspect_id remote id s ≡ (s, exited 1 ("score: " ⧺ ("not found: " ⧺ id)))
  unfolding inspect_id inspect_any
  inspect_id_missing m₁ m₂ m₃ c₁ c₂ c₃ s e₁ e₂ e₃ =
      rw
        (
          missed "sessions/get" m₁ c₁ s sessions-plain e₁,
          missed "workspaces/get" m₂ c₂ s workspaces-plain e₂,
          missed "processes/get" m₃ c₃ s processes-plain e₃,
        )
        refl

  -- `score inspect` of a stored session prints that session, whatever workspace or process has the
  -- same id, when the id and the session are carried over the connection as they are.
  pub inspect_id-session :
      (x : Session) (s : Store)
      → decode_params "" json.id text ≡ decoded id
      → get_session id s ≡ some x
      → wire.reread (Reply.session x) ≡ decoded (Reply.session x)
      → inspect_id remote id s ≡ (s, returned (Output.json (Reply.session x)))
  unfolding inspect_id inspect_any
  inspect_id-session x s asked stored read =
      rw
        (hit "sessions/get" (Reply.session x) s sessions-plain
          (handle-get_session_stored handler os json listing text id x s asked stored) read)
        refl
