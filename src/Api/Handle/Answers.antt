-- ===== src/Api/Handle/Answers.antt =====
-- What a client reads back through the API.
use the_score.Base.{
  false, String, none, some, ◌==◌, ◌≡◌, ◌≢◌, refl, is_some, arith, eq_iff, eq_refl,
}
use the_score.Model.{Session, zero_session}
use the_score.Runtime.{Os}
use the_score.Store.{Store, now}
use the_score.Store.Sessions.{get_session, fill_session, upsert_session, remove_session}
use the_score.Store.Sessions.Laws.{get_session-upsert_session, get_session-remove_session}
use the_score.Api.Reconcile.{Listing}
use the_score.Api.Handle.{
  decoded, Json, Handler, result, session, removed, not_found, decode_params, or_not_found,
  handle_upsert_session, handle_remove_session, handle_method, by_id, handle_read, handle,
  read_method,
}

module _ (handler : Handler) (os : Os) (json : Json) where
  -- `sessions/get` answers a stored session.
  pub handle-get_session_stored :
      (listing : Listing) (text id : String) (x : Session) (s : Store)
      → decode_params "" json.id text ≡ decoded id
      → get_session id s ≡ some x
      → handle handler os json "sessions/get" listing text s ≡ (s, result (session x))
  unfolding handle handle_read handle_method read_method by_id or_not_found
  handle-get_session_stored listing text id x s asked stored = rw asked (rw stored refl)

  -- The session that `observations/upsertSession` leaves in the store.
  pub get_session-handle :
      (listing : Listing) (params : String) (given : Session) (s : Store)
      → decode_params zero_session json.session params ≡ decoded given
      → given.id ≢ ""
      → get_session given.id
          (handle handler os json "observations/upsertSession" listing params s).0
        ≡ some (fill_session (now s) given)
  unfolding handle handle_read handle_method read_method handle_upsert_session
  get_session-handle listing params given s posted named =
      let named' : (given.id == "") ≡ false = ground (arith, eq_iff given.id "") in
      let stored : get_session given.id (upsert_session given s).0
          ≡ some (fill_session (now s) given) =
        ground (arith, get_session-upsert_session given given.id s, eq_refl given.id) in
      rw posted (rw named' stored)

  -- A session that `observations/upsertSession` accepts is what `sessions/get` then answers for its
  -- id: the session as reported, with the defaults of `UpsertSession` where it left a field empty.
  pub get-upsert :
      (listing later : Listing) (params wanted : String) (given : Session) (s : Store)
      → decode_params zero_session json.session params ≡ decoded given
      → decode_params "" json.id wanted ≡ decoded given.id
      → given.id ≢ ""
      → (handle handler os json "sessions/get" later wanted
          (handle handler os json "observations/upsertSession" listing params s).0).1
        ≡ result (session (fill_session (now s) given))
  unfolding handle handle_read handle_method read_method handle_upsert_session by_id or_not_found
  get-upsert listing later params wanted given s posted asked named =
      let named' : (given.id == "") ≡ false = ground (arith, eq_iff given.id "") in
      let stored : get_session given.id (upsert_session given s).0
          ≡ some (fill_session (now s) given) =
        ground (arith, get_session-upsert_session given given.id s, eq_refl given.id) in
      rw posted (rw asked (rw named' (rw stored refl)))

  -- After `observations/removeSession`, `sessions/get` answers 404 for the id, and the removal is
  -- answered with whether there was such a session.
  pub get-remove :
      (listing later : Listing) (params id : String) (s : Store)
      → decode_params "" json.id params ≡ decoded id
      → let p = handle handler os json "observations/removeSession" listing params s in
        ((handle handler os json "sessions/get" later params p.0).1 ≡ not_found "session" id)
        × (p.1 ≡ result (removed (is_some (get_session id s))))
  unfolding handle handle_read handle_method read_method handle_remove_session by_id or_not_found
  get-remove listing later params id s asked =
      let laws = get_session-remove_session id id s in
      let gone : get_session id (remove_session id s).0 ≡ none =
        ground (arith, laws.0, eq_refl id) in
      (rw asked (rw gone refl), rw asked (rw laws.1 refl))
