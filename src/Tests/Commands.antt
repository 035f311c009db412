-- ===== src/Tests/Commands.antt =====
-- Runs of the client and of the commands, against a daemon and a connection that know the texts they use.
use Prim.Native.String.{count}
use the_score.Base.{◌+◌, true, String, [], ◌∷◌, none, some, ◌≡◌, ◌≢◌, refl, ap, arith}
use the_score.Model.{Session, zero_workspace}
use the_score.Store.{now}
use the_score.Store.Sessions.{fill_session, get_session}
use the_score.Api.Reconcile.{listed}
use the_score.Api.Handle.{Decoded, decoded, Json, handle, decode_params}
use the_score.Api.Serve.{Request}
use the_score.Client.{Params, Wire, call, marshalled, daemon_exchange, fresh_client}
use the_score.Client.Calls.{call-handle, outcome_answer}
use the_score.Cli.{client_remote}
use the_score.Cli.Observe.{Observed, observed_session, observe_or_die}
use the_score.Cli.Observe.Stored.{observe-get_session}
use the_score.Tests.{linux, codex, one_session, one_session-IsValid}
use the_score.Tests.Requests.{decoder, daemon}

-- A connection over which the parameters become these texts, and the replies stay as they are.
abbrev pub texts : Params → Decoded String
texts (Params.session x) = decoded "{session}"
texts (Params.id id) = decoded "{id:s1}"
texts _ = decoded "{}"

abbrev pub wire : Wire
wire = record { marshal = texts; reread = λ reply. decoded reply; event = λ e. decoded e }

-- A decoder that reads a given session.
abbrev pub reads : Session → Json
reads x = record decoder {
  session = λ text. decoded x;
  workspace = λ text. decoded (record zero_workspace { path = "/work" });
}

call-handle_example :
    let c =
      call wire
        (daemon_exchange daemon linux decoder (listed (codex ∷ [])))
        "sessions/get"
        (some (Params.id "s1"))
        true
        fresh_client
        one_session in
    let p =
      handle daemon linux decoder "sessions/get" (listed (codex ∷ [])) "{id:s1}" one_session in
    (c.store ≡ p.0) × (c.answer ≡ outcome_answer wire p.1) × (c.client.next ≡ 1 + 1)
unfolding marshalled
call-handle_example =
    call-handle daemon linux decoder (listed (codex ∷ [])) wire "sessions/get" "{id:s1}"
      (some (Params.id "s1")) fresh_client one_session (λ e. omega (arith, ap count e)) refl

abbrev watching : Request
watching = record { id = "1"; method = "events/subscribe"; params = "{}" }

abbrev told : Observed
told = record {
  id = "s1";
  status = "working";
  source = "native";
  workspace = "/work";
  activity = "";
  title = "T";
  parent = "s0";
  root = "";
}

told-named : told.id ≢ ""
told-named e = omega (arith, ap count e)

observe-get_session_example :
    get_session "s1"
      (observe_or_die
        (client_remote wire
          (daemon_exchange daemon linux (reads (observed_session 5 told)) (listed []))
          none)
        5
        told
        one_session).0
    ≡ some (fill_session (now one_session) (observed_session 5 told))
unfolding decode_params
observe-get_session_example =
    observe-get_session daemon linux (reads (observed_session 5 told)) (listed []) wire 5 told
      "{session}" one_session one_session-IsValid refl refl told-named
