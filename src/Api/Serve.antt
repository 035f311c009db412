-- ===== src/Api/Serve.antt =====
-- internal/api/handler.go: `ServeConn` and `handleSubscribe`. What the decoder yields on a connection
-- is a list of turns; the list ends where the client closes it.
pub mod Answers
use the_score.Base.{
  Bool, true, false, String, List, [], ◌∷◌, ◌≡◌, ◌==◌, if◌then◌else◌, ℤ, pos, negsuc, map,
}
use the_score.Model.{Event}
use the_score.Runtime.{Os}
use the_score.Store.{Store}
use the_score.Store.Log.{subscribe, cancel}
use the_score.Api.Reconcile.{Listing}
use the_score.Api.Handle.{
  Decoded, decoded, malformed, Json, Handler, Outcome, error, result, subscribed, invalid_params,
  decode_params, handle,
}

abbrev parse_error_code : ℤ
parse_error_code = negsuc 32699

pub record Request : Type 0 where
  pub id : String
  pub method : String
  pub params : String

-- What `dec.Decode` gives, other than the end of the input.
pub data Incoming : Type 0 where
  request : Request → Incoming
  broken : String → Incoming

-- One round of the loop: what arrives, what the other connections do to the store before, what
-- `ListProcesses` returns, and whether the response can be written.
pub record Turn : Type 0 where
  pub incoming : Incoming
  pub meanwhile : Store → Store
  pub listing : Listing
  pub sent : Bool

pub record Response : Type 0 where
  pub id : String
  pub outcome : Outcome

-- How the loop ends: the connection is closed, or `handleSubscribe` takes it over.
pub data Ending : Type 0 where
  closed : Ending
  subscribing : Request → Ending

pub record Served : Type 0 where
  pub store : Store
  pub responses : List Response
  pub ending : Ending

-- The response, and then the rest unless it could not be written.
abbrev respond : Bool → Response → Store → Served → Served
respond sent response s rest =
    if sent
    then record rest { responses = response ∷ rest.responses }
    else record { store = s; responses = response ∷ []; ending = closed }

module _ (handler : Handler) (os : Os) (json : Json) where
  -- A round of the loop on what arrived; `next` is the loop after it.
  unfoldable pub serve_incoming : Incoming → Listing → Bool → (Store → Served) → Store → Served
  serve_incoming (broken message) listing sent next s = record {
    store = s;
    responses = record { id = ""; outcome = error parse_error_code message } ∷ [];
    ending = closed;
  }
  serve_incoming (request req) listing sent next s =
      let p = handle handler os json req.method listing req.params s in
      if req.method == "events/subscribe"
      then record { store = s; responses = []; ending = subscribing req }
      else respond sent (record { id = req.id; outcome = p.1 }) p.0 (next p.0)

  unfoldable pub serve_conn : List Turn → Store → Served
  serve_conn [] s = record { store = s; responses = []; ending = closed }
  serve_conn (turn ∷ turns) s =
      serve_incoming turn.incoming turn.listing turn.sent (serve_conn turns) (turn.meanwhile s)

-- The loop of `handleSubscribe`: each event that arrives, and whether its notification could be
-- written. It ends where the context is done or the channel is closed.
unfoldable pub notify : List (Event × Bool) → List Event
notify [] = []
notify ((event, sent) ∷ rest) =
    let later = notify rest in if sent then event ∷ later else event ∷ []

-- What `handleSubscribe` does to the store, its response and its notifications; `meanwhile` is what
-- happens to the store while the events arrive.
unfoldable pub subscribe_with :
    Request
    → Decoded ℤ
    → (Store → Store)
    → List (Event × Bool)
    → Store
    → Store × Response × List Event
unfolding notify
subscribe_with req (malformed message) meanwhile stream s =
    (s, record { id = req.id; outcome = invalid_params message }, [])
subscribe_with req (decoded since) meanwhile stream s =
    let (s', id) = subscribe s in
    (cancel id (meanwhile s'), record { id = req.id; outcome = result subscribed }, notify stream)

unfoldable pub handle_subscribe :
    Json → Request → (Store → Store) → List (Event × Bool) → Store → Store × Response × List Event
unfolding decode_params
handle_subscribe json req meanwhile stream s =
    subscribe_with req (decode_params (pos 0) json.since req.params) meanwhile stream s
