-- ===== src/Tests/Reconciling.antt =====
-- Runs of the reconciliation with the process table.
use the_score.Base.{
  String, pos, true, false, [], ◌∷◌, some, ◌≡◌, refl, inl, is_some, ◌⊎◌, ◌≢◌, arith,
}
use the_score.Model.{Session, Process, Edge, zero_process}
use the_score.Runtime.Infer.{
  is_app_bundle_process, normalize_command_name, known_agent, process_meta, process_session,
  infer_agent_process_session, infer_agent_source,
}
use the_score.Strings.{contains}
use the_score.Strings.Words.{to_lower, base, trim}
use the_score.Store.{Store, new, now}
use the_score.Store.Sessions.{upsert_session, get_session, fill_session}
use the_score.Api.Reconcile.{
  reconcile, listed, failed, is_inferred_process_session, inferred_in, find_field, as_bool, adopt,
  process_edge, is_stale_edge,
}
use the_score.Store.Edges.{upsert_edge, fill_edge}
use the_score.Api.Reconcile.Spawned.{Spawned}
use the_score.Api.Reconcile.Spawned.Left.{reconcile-Spawned}
use the_score.Api.Reconcile.Seen.{Runs, reconcile-Runs}
use the_score.Runtime.Infer.Sound.{IsAgent, Evidence, infer_agent_source_sound}
use the_score.Store.Invariant.{IsValid, new-IsValid, upsert_session-IsValid}
use the_score.Base.Table.{get}
use the_score.Api.Reconcile.Reported.{reconcile-edge}
use the_score.Api.Reconcile.Native.{reconcile-get_session}
use the_score.Api.Reconcile.Live.{reconcile-infer}
use the_score.Api.Reconcile.Shows.{Shows}
use the_score.Tests.{
  seconds, linux, codex, fresh, one_session, one_session-IsValid, stored, get_session-one_session,
}

pub stored_native : is_inferred_process_session stored ≡ false
unfolding is_inferred_process_session inferred_in find_field as_bool fill_session
stored_native = refl

-- A codex process, and the report of the client.
reconcile-get_session_example :
    get_session "s1" (reconcile linux (listed (codex ∷ [])) one_session).0 ≡ some stored
reconcile-get_session_example =
    reconcile-get_session linux (listed (codex ∷ [])) "s1" stored one_session one_session-IsValid
      get_session-one_session stored_native

-- A client has set the status of the session that was inferred from the codex process before.
abbrev blocked : Store
blocked =
    (upsert_session (record (process_session codex 7 "codex") { status = "blocked" }) one_session).0

abbrev inferred : Session
inferred = process_session codex (now blocked) "codex"

codex_found : infer_agent_process_session linux codex (now blocked) ≡ some inferred
unfolding infer_agent_process_session infer_agent_source is_app_bundle_process
    normalize_command_name known_agent contains to_lower base trim
codex_found = refl

blocked-IsValid : IsValid blocked
blocked-IsValid = upsert_session-IsValid one_session one_session-IsValid _

now_blocked_is : now blocked ≡ 1004
unfolding upsert_session fill_session process_session the_score.Store.new
    the_score.Store.Log.append_event the_score.Store.Log.deliver the_score.Store.Log.record_event
    the_score.Strings.Numbers.itoa
now_blocked_is = refl

now_blocked : now blocked ≢ 0
now_blocked e = omega (arith, e, now_blocked_is)

reconcile-infer_example :
    ((x : Session) × (get_session inferred.id blocked ≡ some x)
      × (is_inferred_process_session x ≡ false)
      × (get_session inferred.id (reconcile linux (listed (codex ∷ [])) blocked).0 ≡ some x))
    ⊎ Shows linux
        (now blocked)
        (codex ∷ [])
        inferred.id
        (reconcile linux (listed (codex ∷ [])) blocked).0
reconcile-infer_example =
    reconcile-infer linux (codex ∷ []) codex inferred blocked blocked-IsValid now_blocked (inl refl)
      codex_found

-- After the codex process was seen, the store holds the session inferred from it.
abbrev found : Store
found = (reconcile linux (listed (codex ∷ [])) fresh).0

abbrev kept : Session
kept = fill_session 1001 (process_session codex 1000 "codex")

kept-found : get_session "codex:process:42" found ≡ some kept
unfolding reconcile get_session the_score.Base.Table.get the_score.Base.Table.put
    the_score.Base.Table.values the_score.Api.Reconcile.reconcile_listed
    the_score.Api.Reconcile.sweep_edges the_score.Api.Reconcile.is_stale
    the_score.Api.Reconcile.sweep_sessions the_score.Api.Reconcile.link_processes
    the_score.Api.Reconcile.link_process the_score.Api.Reconcile.scan_processes
    the_score.Api.Reconcile.scan_process the_score.Api.Reconcile.scan_found
    the_score.Api.Reconcile.with_cwd the_score.Api.Reconcile.admit_over
    the_score.Api.Reconcile.admit the_score.Api.Reconcile.session_of
    the_score.Api.Reconcile.session_workspace the_score.Store.Edges.list_edges
    the_score.Store.Sessions.list_sessions the_score.Store.Sessions.selects
    the_score.Store.Sessions.is_terminal the_score.Store.Sessions.wanted_statuses
    the_score.Store.new the_score.Store.Sessions.upsert_session
    the_score.Store.Sessions.fill_session the_score.Store.Log.append_event
    the_score.Store.Log.deliver the_score.Store.Log.record_event
    the_score.Store.Workspaces.upsert_workspace the_score.Store.Workspaces.fill_workspace
    infer_agent_process_session infer_agent_source is_app_bundle_process normalize_command_name
    known_agent contains to_lower base trim the_score.Runtime.Infer.process_session
    is_inferred_process_session inferred_in find_field as_bool process_meta
    the_score.Strings.Numbers.itoa
kept-found = refl

kept_inferred : is_inferred_process_session kept ≡ true
unfolding the_score.Store.Sessions.fill_session the_score.Runtime.Infer.process_session
    is_inferred_process_session inferred_in find_field as_bool process_meta
kept_inferred = refl

reconcile-Runs_example : Runs linux (now fresh) (codex ∷ []) "codex:process:42"
reconcile-Runs_example =
    reconcile-Runs linux (codex ∷ []) "codex:process:42" kept fresh (new-IsValid seconds) kept-found
      kept_inferred

codex_source : infer_agent_source linux codex ≡ some "codex"
unfolding infer_agent_source is_app_bundle_process normalize_command_name known_agent contains
    to_lower base trim
codex_source = refl

infer_agent_source_sound_example :
    (is_app_bundle_process codex.args ≡ false) × IsAgent "codex" × Evidence linux codex "codex"
infer_agent_source_sound_example = infer_agent_source_sound linux codex "codex" codex_source

reconcile-edge_example :
    get "e1" (reconcile linux (listed (codex ∷ [])) one_session).0.edges
    ≡ get "e1" one_session.edges
reconcile-edge_example = reconcile-edge linux (listed (codex ∷ [])) "e1" one_session refl

-- A claude process that started the codex process.
abbrev claude : Process
claude = record zero_process {
  id = "process:41";
  pid = pos 41;
  ppid = pos 1;
  command = "/usr/bin/claude";
  args = "claude";
}

abbrev below : Process
below = record codex { ppid = pos 41 }

abbrev both : Store
both = (reconcile linux (listed (claude ∷ below ∷ [])) fresh).0

abbrev spawned_id : String
spawned_id = "process:spawned_by:codex:process:42->claude:process:41"

abbrev spawned : Edge
spawned = process_edge 1000 "codex:process:42" "claude:process:41"

spawned_found : get spawned_id both.edges ≡ some spawned
unfolding reconcile get_session the_score.Base.Table.get the_score.Base.Table.put
    the_score.Base.Table.values the_score.Api.Reconcile.reconcile_listed
    the_score.Api.Reconcile.sweep_edges the_score.Api.Reconcile.is_stale
    the_score.Api.Reconcile.sweep_sessions the_score.Api.Reconcile.link_processes
    the_score.Api.Reconcile.link_process the_score.Api.Reconcile.scan_processes
    the_score.Api.Reconcile.scan_process the_score.Api.Reconcile.scan_found
    the_score.Api.Reconcile.with_cwd the_score.Api.Reconcile.admit_over
    the_score.Api.Reconcile.admit the_score.Api.Reconcile.session_of
    the_score.Api.Reconcile.session_workspace the_score.Store.Edges.list_edges
    the_score.Store.Sessions.list_sessions the_score.Store.Sessions.selects
    the_score.Store.Sessions.is_terminal the_score.Store.Sessions.wanted_statuses
    the_score.Store.new the_score.Store.Sessions.upsert_session
    the_score.Store.Sessions.fill_session the_score.Store.Log.append_event
    the_score.Store.Log.deliver the_score.Store.Log.record_event
    the_score.Store.Workspaces.upsert_workspace the_score.Store.Workspaces.fill_workspace
    infer_agent_process_session infer_agent_source is_app_bundle_process normalize_command_name
    known_agent contains to_lower base trim the_score.Runtime.Infer.process_session
    is_inferred_process_session inferred_in find_field as_bool process_meta
    the_score.Strings.Numbers.itoa adopt process_edge the_score.Api.Reconcile.root_below upsert_edge
    fill_edge is_stale_edge the_score.Store.Sessions.session_less
    the_score.Store.Sessions.attention_rank the_score.Store.Sessions.derive_attention
spawned_found = refl

reconcile-Spawned_example : Spawned linux (now fresh) (claude ∷ below ∷ []) spawned
reconcile-Spawned_example =
    reconcile-Spawned linux (claude ∷ below ∷ []) spawned_id spawned fresh (new-IsValid seconds)
      refl spawned_found
