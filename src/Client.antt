-- ===== src/Client.antt =====
-- internal/client/client.go: a call over a connection, and the stream of a subscription. What
-- encoding/json does to a value on its way is the record Wire; dialling is input and output.
pub mod Calls
pub mod Subscribe
use the_score.Base.{
  ℕ, ◌+◌, Bool, true, false, String, List, [], ◌∷◌, Option, none, some, ◌==◌, if◌then◌else◌, ℤ, pos,
}
use the_score.Strings.Numbers.{itoa}
use the_score.Model.{Session, Workspace, Edge, Event}
use the_score.Runtime.{Os}
use the_score.Store.{Store}
use the_score.Store.Sessions.{SessionFilter}
use the_score.Api.Reconcile.{Listing}
use the_score.Api.Handle.{
  Decoded, decoded, malformed, EventQuery, Json, Reply, Outcome, result, error, Handler,
}
use the_score.Api.Serve.{Request, request, Response, Served, serve_conn}

-- The parameters that the command line passes to `Call`, and those of `SubscribeEvents`.
pub data Params : Type 0 where
  filter : SessionFilter → Params
  id : String → Params
  session_id : String → Params
  query : EventQuery → Params
  session : Session → Params
  workspace : Workspace → Params
  edge : Edge → Params
  since : ℤ → Params

-- `json.Marshal` of the parameters, what the caller's variable holds of a reply that was decoded,
-- marshalled and unmarshalled again, and what the variable `event` holds of the parameters of a
-- notification about an event, likewise; each may fail.
pub record Wire : Type 0 where
  pub marshal : Params → Decoded String
  pub reread : Reply → Decoded Reply
  pub event : Event → Decoded Event

-- The field of the struct that changes.
pub record Client : Type 0 where
  pub next : ℕ

abbrev pub fresh_client : Client
fresh_client = record { next = 1 }

-- Writing a request and reading the response to it, on a connection to a daemon with this store; the
-- text is the error of either.
abbrev pub Exchange : Type 0
Exchange = Request → Store → Store × Decoded Response

-- nil parameters are not sent
unfoldable pub marshalled : Wire → Option Params → Decoded String
marshalled wire none = decoded ""
marshalled wire (some params) = wire.marshal params

-- The end of `Call`; without a result to fill, the reply is not read.
unfoldable pub received : Wire → Bool → Decoded Response → Decoded (Option Reply)
received wire wanted (malformed message) = malformed message
received wire wanted (decoded response) = elim response.outcome [
  | error code message ↦ malformed message
  | result reply ↦ elim wanted [
    | false ↦ decoded none
    | true ↦ elim (wire.reread reply) [
      | malformed message ↦ malformed message
      | decoded value ↦ decoded (some value)
    ]
  ]
]

-- What a call leaves: the store of the daemon, the client, and the result or an error.
pub record Called : Type 0 where
  pub store : Store
  pub client : Client
  pub answer : Decoded (Option Reply)

unfoldable pub send : Wire → Exchange → String → Bool → Decoded String → Client → Store → Called
unfolding received
send wire exchange method wanted (malformed message) client s = record {
  store = s;
  client = client;
  answer = malformed message;
}
send wire exchange method wanted (decoded params) client s =
    let req : Request = record { id = itoa (pos client.next); method = method; params = params } in
    let p = exchange req s in
    record {
      store = p.0;
      client = record { next = client.next + 1 };
      answer = received wire wanted p.1;
    }

unfoldable pub call : Wire → Exchange → String → Option Params → Bool → Client → Store → Called
unfolding send marshalled
call wire exchange method params wanted client s =
    send wire exchange method wanted (marshalled wire params) client s

-- A notification as the decoder yields it: its method, and what marshalling its parameters and
-- unmarshalling them as an event gives.
pub record Notification : Type 0 where
  pub method : String
  pub params : Decoded Event

-- The goroutine of `SubscribeEvents`: the events that it passes on.
unfoldable pub event_stream : List Notification → List Event
event_stream [] = []
event_stream (notif ∷ rest) =
    let later = event_stream rest in
    elim notif.params [
      | malformed message ↦ later
      | decoded event ↦ if notif.method == "events/event" then event ∷ later else later
    ]

-- The response that the client reads first.
unfoldable pub first_response : List Response → Decoded Response
first_response [] = malformed "EOF"
first_response (response ∷ rest) = decoded response

-- A connection to the daemon itself, over which nothing is lost, for requests other than
-- subscriptions.
unfoldable pub daemon_exchange : Handler → Os → Json → Listing → Exchange
unfolding first_response
daemon_exchange handler os json listing req s =
    let served =
      serve_conn handler os json
        (record { incoming = request req; meanwhile = λ t. t; listing = listing; sent = true } ∷ [])
        s in
    (served.store, first_response served.responses)
