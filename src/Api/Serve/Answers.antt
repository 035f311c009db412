-- ===== src/Api/Serve/Answers.antt =====
-- A connection as a whole: its answers, and what it leaves of the store.
use the_score.Base.{
  pos, ℤ, Bool, true, false, String, List, [], ◌∷◌, ◌≡◌, ◌≢◌, refl, ◌==◌, arith, eq_iff, All, map,
  ap, Bool-cases, inl, inr,
}
use the_score.Runtime.{Os}
use the_score.Store.{Store}
use the_score.Store.Log.{subscribe}
use the_score.Store.Invariant.{IsValid, subscribe-IsValid, cancel-IsValid}
use the_score.Api.Reconcile.{Listing}
use the_score.Model.{Event}
use the_score.Api.Handle.{Decoded, decoded, malformed, decode_params, Json, Handler, handle}
use the_score.Api.Handle.Keeps.{handle-IsValid}
use the_score.Api.Serve.{
  Request, Incoming, request, broken, Turn, Served, serve_incoming, serve_conn, subscribe_with,
  handle_subscribe,
}

-- A request for an answer, which can be written.
abbrev IsPlain : Incoming → Bool → Type 0
IsPlain (broken message) sent = ⊥
IsPlain (request req) sent = (req.method ≢ "events/subscribe") × (sent ≡ true)

abbrev asked_id : Incoming → String
asked_id (broken message) = ""
asked_id (request req) = req.id

module _ (handler : Handler) (os : Os) (json : Json) (listing : Listing) where
  incoming-ids :
      (incoming : Incoming) (sent : Bool) (next : Store → Served) (ids : List String) (s : Store)
      → IsPlain incoming sent
      → ((t : Store) → map (λ response. response.id) (next t).responses ≡ ids)
      → map
          (λ response. response.id)
          (serve_incoming handler os json incoming listing sent next s).responses
        ≡ asked_id incoming ∷ ids
  unfolding serve_incoming
  incoming-ids (broken message) sent next ids s plain later = absurd plain
  incoming-ids (request req) sent next ids s plain later =
      let p = handle handler os json req.method listing req.params s in
      let other : (req.method == "events/subscribe") ≡ false =
        ground (arith, plain, eq_iff req.method "events/subscribe") in
      rw other (rw plain.1 (ap (λ rest. req.id ∷ rest) (later p.0)))

  incoming-IsValid :
      (incoming : Incoming) (sent : Bool) (next : Store → Served) (s : Store)
      → IsValid s
      → ((t : Store) → IsValid t → IsValid (next t).store)
      → IsValid (serve_incoming handler os json incoming listing sent next s).store
  unfolding serve_incoming
  incoming-IsValid (broken message) sent next s v later = v
  incoming-IsValid (request req) sent next s v later =
      let p = handle handler os json req.method listing req.params s in
      let handled = handle-IsValid handler os json req.method listing req.params s v in
      elim (Bool-cases (req.method == "events/subscribe")) [
        | inl taken ↦ rw taken v
        | inr other ↦ rw other (elim (Bool-cases sent) [
          | inl written ↦ rw written (later p.0 handled)
          | inr lost ↦ rw lost handled
        ])
      ]

-- Every request is answered once, in order and under its own id, as long as it is no subscription
-- and the answers can be written.
pub serve_conn-ids :
    (handler : Handler) (os : Os) (json : Json) (turns : List Turn) (s : Store)
    → All (λ turn. IsPlain turn.incoming turn.sent) turns
    → map (λ response. response.id) (serve_conn handler os json turns s).responses
      ≡ map (λ turn. asked_id turn.incoming) turns
unfolding serve_conn
serve_conn-ids handler os json [] s plain = refl
serve_conn-ids handler os json (turn ∷ turns) s plain =
    incoming-ids handler os json turn.listing turn.incoming turn.sent
      (serve_conn handler os json turns) _ (turn.meanwhile s) plain.0
      (λ t. serve_conn-ids handler os json turns t plain.1)

-- Requests, broken input and failed writes leave a valid store valid, if what the other connections
-- do in between does.
pub serve_conn-IsValid :
    (handler : Handler) (os : Os) (json : Json) (turns : List Turn) (s : Store)
    → All (λ turn. (t : Store) → IsValid t → IsValid (turn.meanwhile t)) turns
    → IsValid s
    → IsValid (serve_conn handler os json turns s).store
unfolding serve_conn
serve_conn-IsValid handler os json [] s others v = v
serve_conn-IsValid handler os json (turn ∷ turns) s others v =
    incoming-IsValid handler os json turn.listing turn.incoming turn.sent
      (serve_conn handler os json turns) (turn.meanwhile s) (others.0 s v)
      (λ t w. serve_conn-IsValid handler os json turns t others.1 w)

subscribe_with-IsValid :
    (req : Request) (since : Decoded ℤ) (meanwhile : Store → Store) (stream : List (Event × Bool))
    (s : Store)
    → IsValid s
    → ((t : Store) → IsValid t → IsValid (meanwhile t))
    → IsValid (subscribe_with req since meanwhile stream s).0
unfolding subscribe_with
subscribe_with-IsValid req (malformed message) meanwhile stream s v others = v
subscribe_with-IsValid req (decoded since) meanwhile stream s v others =
    cancel-IsValid (subscribe s).1 (meanwhile (subscribe s).0)
      (others (subscribe s).0 (subscribe-IsValid s v))

-- A subscription, from its request to its end, leaves a valid store valid, if what happens in
-- between does.
pub handle_subscribe-IsValid :
    (json : Json) (req : Request) (meanwhile : Store → Store) (stream : List (Event × Bool))
    (s : Store)
    → IsValid s
    → ((t : Store) → IsValid t → IsValid (meanwhile t))
    → IsValid (handle_subscribe json req meanwhile stream s).0
unfolding handle_subscribe
handle_subscribe-IsValid json req meanwhile stream s v others =
    subscribe_with-IsValid req (decode_params (pos 0) json.since req.params) meanwhile stream s v
      others
