-- ===== src/Cli/Run/Returned.antt =====
-- cmd/score/main.go: that `score run` returns, and with what.
use the_score.Base.{String, [], ◌∷◌, none, ◌≡◌, ◌≢◌, ℤ}
use text.Mathlib.TextLemmas.{length-append as count-append}
use the_score.Strings.{◌⧺◌}
use the_score.Strings.Words.{join}
use the_score.Strings.Numbers.{itoa}
use the_score.Model.{Session, Workspace, Edge, zero_workspace, zero_edge}
use the_score.Model.Status
use the_score.Runtime.{Os}
use the_score.Store.{Store}
use the_score.Api.Reconcile.{Listing}
use the_score.Api.Handle.{decoded, decode_params, Reply, Json, Handler}
use the_score.Client.{Params, Wire, daemon_exchange}
use the_score.Cli.{Prog, ◌>>◌, Remote, client_remote}
use the_score.Cli.Returning.{Returning, Rereads}
use the_score.Cli.Observe.{upsert_workspace, upsert_edge, when_set, sent_workspace, sent_edge}
use the_score.Cli.Run.{Machine, Job, run_session, finish_job}

module _ (handler : Handler) (os : Os) (json : Json) (listing : Listing) (wire : Wire)
    (rereads : Rereads wire) (machine : Machine) (job : Job) (named : job.id ≢ "") where
  -- The daemon as the command reaches it.
  abbrev remote : Remote
  remote = client_remote wire (daemon_exchange handler os json listing) none

  -- That encoding/json carries the workspace and the edge to the daemon as they are.
  abbrev CarriesWorkspace : Workspace → Type 0
  CarriesWorkspace w =
      (text : String) × (wire.marshal (Params.workspace w) ≡ decoded text)
      × (decode_params zero_workspace json.workspace text ≡ decoded w)

  abbrev CarriesEdge : Edge → Type 0
  CarriesEdge e =
      (text : String) × (wire.marshal (Params.edge e) ≡ decoded text)
      × (decode_params zero_edge json.edge text ≡ decoded e)

  -- The first report.
  abbrev pub first : (pid : ℤ) → Session
  first pid =
      run_session job (("process:" ⧺ itoa pid) ∷ []) Status.working
        ("running: " ⧺ join " " job.command) machine.started_at none machine.reported_at

  -- What follows the first report, behind the workspace and behind the edge.
  abbrev linking : Reply → ℤ → Prog ℤ
  linking reply pid =
      when_set remote job.parent (upsert_edge remote (sent_edge job.id job.parent job.source)) reply
      >> finish_job remote machine job ("process:" ⧺ itoa pid)

  abbrev placing : Reply → ℤ → Prog ℤ
  placing reply pid =
      upsert_workspace remote (sent_workspace job.workspace job.id job.source) >> linking reply pid
