-- ===== src/Tests/Runs.antt =====
-- Runs of `score inspect` and of `score run`, against a daemon.
use Prim.Native.String.{count}
use the_score.Base.{
  String, ◌==◌, false, [], ◌∷◌, none, some, ◌≡◌, ◌≢◌, refl, ap, arith, pos, if◌then◌else◌,
}
use the_score.Strings.{◌⧺◌}
use the_score.Strings.Numbers.{itoa}
use the_score.Model.{Session}
use the_score.Model.Status
use the_score.Store.{new}
use the_score.Store.Sessions.{get_session}
use the_score.Store.Workspaces.{get_workspace}
use the_score.Base.Table.{get}
use the_score.Api.Handle.{Decoded}
use the_score.Client.{Wire}
use the_score.Api.Reconcile.{listed}
use the_score.Api.Handle.{
  decoded, Json, handle, handle_read, handle_method, read_method, by_id, or_not_found, find_process,
  decode_params, error,
}
use the_score.Client.{Params, daemon_exchange}
use the_score.Cli.{Remote, client_remote}
use the_score.Cli.Run.{Machine, Job, exit_error, run_session}
use the_score.Cli.Observe.{sent_workspace}
use the_score.Tests.{linux, fresh}
use the_score.Tests.Requests.{decoder, daemon}
use the_score.Tests.Commands.{wire}

abbrev over : Json → Remote
over json = client_remote wire (daemon_exchange daemon linux json (listed [])) none

sent : wire.marshal (Params.id "s1") ≡ decoded "{id:s1}"
sent = refl

no_session :
    (handle daemon linux decoder "sessions/get" (listed []) "{id:s1}" fresh).1
    ≡ error (pos 404) "session not found: s1"
unfolding handle handle_read handle_method read_method by_id or_not_found decode_params get_session
    get new
no_session = refl

no_workspace :
    (handle daemon linux decoder "workspaces/get" (listed []) "{id:s1}" fresh).1
    ≡ error (pos 404) "workspace not found: s1"
unfolding handle handle_read handle_method read_method by_id or_not_found decode_params
    get_workspace get new
no_workspace = refl

no_process :
    (handle daemon linux decoder "processes/get" (listed []) "{id:s1}" fresh).1
    ≡ error (pos 404) "process not found: s1"
unfolding handle handle_read handle_method read_method find_process decode_params
no_process = refl

-- A command that fails with code 3, and one that cannot be started.
abbrev pub failing : Machine
failing = record {
  getwd = decoded "/work";
  get_env = λ name. "";
  lower = λ c. c;
  start = decoded (pos 77);
  stopped = false;
  waited = exit_error (pos 3) "exit status 3";
  unix_nano = pos 9;
  started_at = 10;
  ended_at = 20;
  reported_at = 11;
  finished_at = 21;
}

abbrev pub job : Job
job = record {
  id = "sh:9";
  source = "sh";
  workspace = "/work";
  title = "sh";
  parent = "";
  root = "sh:9";
  command = "sh" ∷ [];
}

pub job-named : job.id ≢ ""
job-named e = omega (arith, ap count e)

abbrev began : Session
began = run_session job (("process:" ⧺ itoa (pos 77)) ∷ []) Status.working "running: sh" 10 none 11

abbrev ended : Session
ended =
    run_session job (("process:" ⧺ itoa (pos 77)) ∷ []) Status.failed "failed: exit status 3" 10
      (some 20) 21

-- A connection that tells the two reports apart by their status.
abbrev report_text : Params → Decoded String
report_text (Params.session x) = decoded x.status
report_text (Params.workspace w) = decoded "{workspace}"
report_text _ = decoded "{}"

abbrev reports : Wire
reports = record { marshal = report_text; reread = λ reply. decoded reply; event = λ e. decoded e }

abbrev reader : Json
reader = record decoder {
  session = λ text. decoded (if text == Status.working then began else ended);
  workspace = λ text. decoded (sent_workspace "/work" "sh:9" "sh");
}

abbrev unstarted : Session
unstarted = run_session job [] Status.failed "start failed: no such file" 10 (some 20) 11
