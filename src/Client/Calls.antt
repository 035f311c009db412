-- ===== src/Client/Calls.antt =====
-- internal/client/client.go: what a call over a connection to the daemon comes to, and what a watcher
-- gets of the notifications of the daemon.
use the_score.Base.{
  true, false, String, List, [], ◌∷◌, Option, some, ◌≡◌, ◌≢◌, refl, ◌==◌, arith, eq_iff, ◌+◌, map,
  ap, pos, In, inl, inr, sym, ◌∙◌,
}
use the_score.Model.{Event}
use the_score.Strings.Numbers.{itoa}
use the_score.Runtime.{Os}
use the_score.Store.{Store}
use the_score.Api.Reconcile.{Listing}
use the_score.Api.Handle.{
  Decoded, decoded, malformed, Reply, Outcome, result, error, Json, Handler, handle,
}
use the_score.Api.Serve.{serve_incoming, serve_conn, notify}
use the_score.Client.{
  Params, Wire, Client, call, send, marshalled, received, daemon_exchange, first_response,
  event_stream, Notification,
}

-- What a caller is to get of an outcome: an error's message, or the result as it is read.
abbrev pub outcome_answer : Wire → Outcome → Decoded (Option Reply)
outcome_answer wire (error code message) = malformed message
outcome_answer wire (result reply) = elim (wire.reread reply) [
  | malformed message ↦ malformed message
  | decoded value ↦ decoded (some value)
]

pub outcome_answer-result :
    (wire : Wire) (reply : Reply)
    → wire.reread reply ≡ decoded reply
    → outcome_answer wire (result reply) ≡ decoded (some reply)
outcome_answer-result wire reply e = rw (e, outcome_answer) refl

answer-received :
    (wire : Wire) (id : String) (outcome : Outcome)
    → received wire true (decoded (record { id = id; outcome = outcome }))
      ≡ outcome_answer wire outcome
unfolding received
answer-received wire id (error code message) = refl
answer-received wire id (result reply) = refl

-- `Call` over a connection to the daemon, of a method other than `events/subscribe` and with
-- parameters that can be marshalled, does to the store what `Handle` does, returns the result or the
-- message of the error of `Handle`, and counts the request.
pub call-handle :
    (handler : Handler) (os : Os) (json : Json) (listing : Listing) (wire : Wire)
    (method text : String) (params : Option Params) (client : Client) (s : Store)
    → method ≢ "events/subscribe"
    → marshalled wire params ≡ decoded text
    → let c = call wire (daemon_exchange handler os json listing) method params true client s in
      let p = handle handler os json method listing text s in
      (c.store ≡ p.0) × (c.answer ≡ outcome_answer wire p.1) × (c.client.next ≡ client.next + 1)
unfolding call send received daemon_exchange first_response serve_conn serve_incoming
call-handle handler os json listing wire method text params client s plain sent =
    let other : (method == "events/subscribe") ≡ false =
      ground (arith, eq_iff method "events/subscribe") in
    rw (sent, other) (refl, answer-received wire (itoa (pos client.next)) _, refl)

-- A notification of the daemon about an event, at the client.
abbrev pub notification : Wire → Event → Notification
notification wire e = record { method = "events/event"; params = wire.event e }

-- The events that can be read again, as they are read.
abbrev pub reread_or_drop : Decoded Event → List Event → List Event
reread_or_drop (malformed message) later = later
reread_or_drop (decoded event) later = event ∷ later

unfoldable pub reread_all : Wire → List Event → List Event
reread_all wire [] = []
reread_all wire (e ∷ es) = reread_or_drop (wire.event e) (reread_all wire es)

event_stream-cons :
    (params : Decoded Event) (rest : List Notification)
    → event_stream (record { method = "events/event"; params = params } ∷ rest)
      ≡ reread_or_drop params (event_stream rest)
unfolding event_stream
event_stream-cons (malformed message) rest = refl
event_stream-cons (decoded event) rest = refl

pub event_stream-notification :
    (wire : Wire) (es : List Event) → event_stream (map (notification wire) es) ≡ reread_all wire es
unfolding reread_all
event_stream-notification wire [] = unfold event_stream in refl
event_stream-notification wire (e ∷ es) =
    event_stream-cons (wire.event e) (map (notification wire) es)
    ∙ ap (reread_or_drop (wire.event e)) (event_stream-notification wire es)

later-In :
    (x : Event) (read : Decoded Event) (later : List Event)
    → In x later
    → In x (reread_or_drop read later)
later-In x (malformed message) later m = m
later-In x (decoded event) later m = inr m

-- What can be read again of an event that arrived is among them.
pub In-reread_all :
    (wire : Wire) (e x : Event) (es : List Event)
    → wire.event e ≡ decoded x
    → In e es
    → In x (reread_all wire es)
unfolding reread_all
In-reread_all wire e x [] read m = absurd m
In-reread_all wire e x (y ∷ ys) read (inl here) = rw (ap wire.event (sym here) ∙ read) (inl refl)
In-reread_all wire e x (y ∷ ys) read (inr later) =
    later-In x (wire.event y) (reread_all wire ys) (In-reread_all wire e x ys read later)

pub notify-map : (es : List Event) → notify (map (λ e. (e, true)) es) ≡ es
unfolding notify
notify-map [] = refl
notify-map (e ∷ es) = ap (λ rest. e ∷ rest) (notify-map es)
