-- ===== src/Tests/Requests.antt =====
-- Runs of whole requests, with a JSON decoder that knows the texts they use.
use the_score.Base.{true, [], ◌∷◌, some, ◌≡◌, ◌≢◌, refl, arith, ◌==◌, if◌then◌else◌, is_some, pos}
use the_score.Model.{zero_session, zero_workspace, zero_edge}
use the_score.Store.{now}
use the_score.Store.Sessions.{fill_session, get_session}
use the_score.Store.Invariant.{IsValid}
use the_score.Api.Reconcile.{listed, failed}
use the_score.Api.Handle.{
  decoded, malformed, Json, Method, Handler, error, result, session, removed, not_found, no_filter,
  no_query, decode_params, read_method, handle_read, handle, method_not_found_code,
}
use the_score.Api.Handle.Keeps.{handle-IsValid}
use the_score.Api.Handle.Survives.{handle-get_session}
use the_score.Api.Handle.Errors.{handle-error}
use the_score.Api.Handle.Answers.{get-upsert, get-remove}
use the_score.Tests.{
  linux, codex, fresh, one_session, one_session-IsValid, reported, reported_named, stored,
  get_session-one_session,
}
use the_score.Tests.Reconciling.{stored_native}

abbrev pub decoder : Json
decoder = record {
  filter = λ text. if text == "{}" then decoded no_filter else malformed "unexpected";
  id = λ text. if text == "{id:s1}" then decoded "s1" else malformed "unexpected";
  session_id = λ text. malformed "unexpected";
  query = λ text. decoded no_query;
  session = λ text. if text == "{session}" then decoded reported else malformed "unexpected";
  workspace = λ text. decoded zero_workspace;
  edge = λ text. decoded zero_edge;
  since = λ text. decoded (pos 0);
}

abbrev pub daemon : Handler
daemon = record { started_at = 900; pid = pos 7; can_shut_down = true }

handle-IsValid_example :
    IsValid (handle daemon linux decoder "sessions/list" (listed (codex ∷ [])) "{}" one_session).0
handle-IsValid_example =
    handle-IsValid daemon linux decoder "sessions/list" (listed (codex ∷ [])) "{}" one_session
      one_session-IsValid

not_upsert : read_method "sessions/list" ≢ some Method.upsert_session
unfolding read_method
not_upsert e = ground arith

not_remove : read_method "sessions/list" ≢ some Method.remove_session
unfolding read_method
not_remove e = ground arith

handle-get_session_example :
    get_session "s1"
      (handle daemon linux decoder "sessions/list" (listed (codex ∷ [])) "{}" one_session).0
    ≡ some stored
handle-get_session_example =
    handle-get_session daemon linux decoder "sessions/list" (listed (codex ∷ [])) "{}" "s1" stored
      one_session one_session-IsValid get_session-one_session stored_native not_upsert not_remove

unknown :
    (handle daemon linux decoder "sessions/stop" (listed []) "{}" one_session).1
    ≡ error method_not_found_code "method not found: sessions/stop"
unfolding handle read_method handle_read
unknown = refl

handle-error_example :
    (handle daemon linux decoder "sessions/stop" (listed []) "{}" one_session).0 ≡ one_session
handle-error_example =
    handle-error daemon linux decoder "sessions/stop" (listed []) "{}" one_session
      method_not_found_code "method not found: sessions/stop" unknown

posted : decode_params zero_session decoder.session "{session}" ≡ decoded reported
unfolding decode_params
posted = refl

asked : decode_params "" decoder.id "{id:s1}" ≡ decoded reported.id
unfolding decode_params
asked = refl

get-upsert_example :
    (handle daemon linux decoder "sessions/get"
      (listed [])
      "{id:s1}"
      (handle daemon linux decoder "observations/upsertSession"
        (failed "busy")
        "{session}"
        fresh).0).1
    ≡ result (session (fill_session (now fresh) reported))
get-upsert_example =
    get-upsert daemon linux decoder (failed "busy") (listed []) "{session}" "{id:s1}" reported fresh
      posted asked reported_named

get-remove_example :
    let p =
      handle daemon linux decoder "observations/removeSession" (listed []) "{id:s1}" one_session in
    ((handle daemon linux decoder "sessions/get" (listed []) "{id:s1}" p.0).1
      ≡ not_found "session" "s1")
    × (p.1 ≡ result (removed (is_some (get_session "s1" one_session))))
get-remove_example =
    get-remove daemon linux decoder (listed []) (listed []) "{id:s1}" "s1" one_session asked
