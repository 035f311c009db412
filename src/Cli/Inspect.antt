-- ===== src/Cli/Inspect.antt =====
-- cmd/score/main.go: the commands lineage, events, sources and inspect.
pub mod Found
use the_score.Base.{
  Bool, true, false, String, List, [], ◌∷◌, ◌++◌, Option, none, some, ◌==◌, if◌then◌else◌, not, map,
  keep, any, ℤ, pos,
}
use the_score.Strings.{◌⧺◌}
use the_score.Strings.Numbers.{itoa}
use the_score.Model.{Event, Source, zero_source}
use the_score.Api.Handle.{Decoded, decoded, malformed, Reply, EventQuery}
use the_score.Client.{Params, Notification, event_stream}
use the_score.Cli.{
  Prog, returned, exited, then_with, ◌>>=◌, ◌>>◌, pure, die, die_daemon, usage, Output, Remote,
  call_err, call_or_die,
}
use the_score.Cli.Flags.{
  Kind, boolean, text, number, Parsed, parse_or_exit, flag_text, flag_bool, flag_int,
}
use the_score.Cli.Read.{
  Host, as_reply, as_lineage, as_events, lineage_row, edge_rows, print_events, print_sources, shown,
}

head_or_empty : List String → String
head_or_empty [] = ""
head_or_empty (x ∷ xs) = x

-- What `client.Dial` and `SubscribeEvents` return: no connection, an error, or what arrives.
pub data Watched : Type 0 where
  unreachable : String → Watched
  refused : String → Watched
  streaming : List Notification → Watched

event_line : Event → Output
event_line e = Output.line (itoa e.seq ⧺ "\t" ⧺ e.type ⧺ "\t" ⧺ e.session_id ⧺ "\t" ⧺ e.summary)

-- `printJSON` of an event, or its line.
event_output : Bool → Event → Output
unfolding event_line
event_output as_json e = if as_json then Output.json_event e else event_line e

watch_events : Bool → Watched → Prog (List Output)
unfolding event_output
watch_events as_json (unreachable message) = die_daemon message
watch_events as_json (refused message) = die message
watch_events as_json (streaming notifications) =
    pure (map (event_output as_json) (event_stream notifications))

-- The method and the parameters of `runSources`, by its arguments other than `--json`.
abbrev sources_method : List String → String
sources_method [] = "sources/list"
sources_method (x ∷ xs) = if x == "doctor" then "sources/doctor" else "sources/list"

abbrev sources_params : List String → Option Params
sources_params (x ∷ id ∷ xs) = if x == "doctor" then some (Params.id id) else none
sources_params _ = none

-- The value of `sources`, or of `source`, that the reply leaves.
sources_in : Reply → List Source
sources_in (Reply.sources xs) = xs
sources_in (Reply.source x) = x ∷ []
sources_in _ = zero_source ∷ []

-- The three lookups of `runInspect`; the first that succeeds is printed.
pub inspected : String → Decoded Reply → Prog (Option Output)
inspected id (malformed message) = pure none
inspected id (decoded reply) = pure (some (Output.json reply))

module _ (remote : Remote) where
  pub inspect_as : String → String → Prog (Option Output)
  unfolding inspected
  inspect_as id method = do
    answer ← call_err remote as_reply method (some (Params.id id))
    inspected id answer

  -- The methods in their order, and then the error.
  pub inspect_any : String → List String → Prog Output
  unfolding inspect_as
  inspect_any id [] = die ("not found: " ⧺ id)
  inspect_any id (method ∷ methods) = do
    found ← inspect_as id method
    elim found [ none ↦ inspect_any id methods | some output ↦ pure output ]

  pub inspect_id : String → Prog Output
  unfolding inspect_any
  inspect_id id = inspect_any id ("sessions/get" ∷ "workspaces/get" ∷ "processes/get" ∷ [])

  inspect_args : List String → Prog Output
  unfolding inspect_id
  inspect_args (id ∷ []) = inspect_id id
  inspect_args _ = usage

  unfoldable pub run_sources : List String → Prog Output
  unfolding sources_in
  run_sources args =
      let as_json = any (λ arg. arg == "--json") args in
      let others = keep (λ arg. not (arg == "--json")) args in
      do
        reply ← call_or_die remote as_reply (sources_method others) (sources_params others)
        pure (shown as_json reply (print_sources (sources_in reply)))

module _ (host : Host) (remote : Remote) where
  unfoldable pub run_lineage : List String → Prog Output
  unfolding head_or_empty
  run_lineage args = do
    p ← parse_or_exit host.parse_int (("json", boolean) ∷ []) args
    l ←
        call_or_die remote as_lineage "lineage/get"
          (some (Params.session_id (head_or_empty p.rest)))
    pure (
        shown (flag_bool "json" p) (Reply.lineage_of l) (
          Output.table (
            ("SESSION" ∷ "STATUS" ∷ "PARENT" ∷ "ROOT" ∷ "ACTIVITY" ∷ [])
            ∷ (map lineage_row l.sessions ++ edge_rows l.edges))))

  list_events : Bool → ℤ → Prog (List Output)
  list_events as_json since = do
    es ←
        call_or_die remote as_events "events/list"
          (some (Params.query (record { since = since; limit = pos 0 })))
    pure (shown as_json (Reply.events es) (print_events host es) ∷ [])

  events_of : (ℤ → Watched) → Bool → Bool → ℤ → Prog (List Output)
  unfolding watch_events list_events
  events_of watched true as_json since = watch_events as_json (watched since)
  events_of watched false as_json since = list_events as_json since

  -- `watched` says what comes of the subscription from a number.
  unfoldable pub run_events : (ℤ → Watched) → List String → Prog (List Output)
  unfolding events_of
  run_events watched args = do
    p ←
        parse_or_exit host.parse_int
          (("since", number) ∷ ("watch", boolean) ∷ ("json", boolean) ∷ []) args
    events_of watched (flag_bool "watch" p) (flag_bool "json" p) (flag_int host.parse_int "since" p)

  -- `--json` changes nothing: `printMaybeJSON` prints JSON either way.
  unfoldable pub run_inspect : List String → Prog Output
  unfolding inspect_args
  run_inspect args = do
    p ← parse_or_exit host.parse_int (("json", boolean) ∷ []) args
    inspect_args remote p.rest
