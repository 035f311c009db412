-- ===== src/Client/Subscribe.antt =====
-- internal/client/client.go: `SubscribeEvents`.
pub mod Streams
use the_score.Base.{◌+◌, true, Bool, String, List, [], ◌∷◌, ℤ, pos, map}
use the_score.Strings.Numbers.{itoa}
use the_score.Model.{Event}
use the_score.Runtime.{Os}
use the_score.Store.{Store}
use the_score.Api.Reconcile.{Listing}
use the_score.Api.Handle.{Decoded, decoded, malformed, Json, result, error, Handler}
use the_score.Api.Serve.{
  Request, request, Response, Ending, closed, subscribing, serve_conn, handle_subscribe,
}
use the_score.Client.{Params, Wire, Client, Notification, event_stream, first_response}
use the_score.Client.Calls.{notification}

-- Writing a request for a subscription, and what the connection then yields: the response or an error,
-- and the notifications up to its end.
abbrev pub Streaming : Type 0
Streaming = Request → Store → Store × Decoded Response × List Notification

-- What the call leaves: the store of the daemon, the client, and the events of the channel or an error.
pub record Subscribed : Type 0 where
  pub store : Store
  pub client : Client
  pub events : Decoded (List Event)

-- An error of `json.Marshal` is ignored; the parameters are then nil.
text_or_nil : Decoded String → String
text_or_nil (malformed message) = ""
text_or_nil (decoded text) = text

accepted : Decoded Response → List Notification → Decoded (List Event)
accepted (malformed message) notifications = malformed message
accepted (decoded response) notifications = elim response.outcome [
  | error code message ↦ malformed message
  | result reply ↦ decoded (event_stream notifications)
]

unfoldable pub subscribe_events : Wire → Streaming → ℤ → Client → Store → Subscribed
unfolding text_or_nil accepted
subscribe_events wire streaming since client s =
    let req : Request = record {
      id = itoa (pos client.next);
      method = "events/subscribe";
      params = text_or_nil (wire.marshal (Params.since since));
    } in
    let p = streaming req s in
    record { store = p.0; client = record { next = client.next + 1 }; events = accepted p.1 p.2 }

-- The connection once `ServeConn` has come to its end, or has handed it to `handleSubscribe`.
unfoldable pub after_serving :
    Wire
    → Json
    → (Store → Store)
    → List (Event × Bool)
    → List Response
    → Ending
    → Store
    → Store × Decoded Response × List Notification
after_serving wire json meanwhile stream responses closed s = (s, first_response responses, [])
after_serving wire json meanwhile stream responses (subscribing req) s =
    let p = handle_subscribe json req meanwhile stream s in
    (p.0, decoded p.1, map (notification wire) p.2)

-- A connection to the daemon itself.
unfoldable pub daemon_streaming :
    Wire → Handler → Os → Json → Listing → (Store → Store) → List (Event × Bool) → Streaming
unfolding after_serving
daemon_streaming wire handler os json listing meanwhile stream req s =
    let served =
      serve_conn handler os json
        (record { incoming = request req; meanwhile = λ t. t; listing = listing; sent = true } ∷ [])
        s in
    after_serving wire json meanwhile stream served.responses served.ending served.store
