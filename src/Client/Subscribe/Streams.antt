-- ===== src/Client/Subscribe/Streams.antt =====
-- internal/client/client.go, `handleSubscribe` and `Subscribe`: a subscription from end to end.
use the_score.Base.{◌+◌, Bool, true, String, List, ℤ, pos, map, ◌≡◌, refl, ap, In, ◌⊎◌, inl, inr}
use the_score.Model.{Event}
use the_score.Runtime.{Os}
use the_score.Store.{Store}
use the_score.Store.Log.{subscribe, cancel, backlog}
use the_score.Store.Log.Feed.{Feed, Reach, start, feed-backlog}
use the_score.Api.Reconcile.{Listing}
use the_score.Api.Handle.{Decoded, decoded, malformed, Json, Handler, decode_params}
use the_score.Api.Serve.{notify, serve_conn, serve_incoming, handle_subscribe, subscribe_with}
use the_score.Client.{Params, Wire, Client, event_stream}
use the_score.Client.Calls.{
  notification, notify-map, reread_all, event_stream-notification, In-reread_all,
}
use the_score.Client.Subscribe.{Subscribed, subscribe_events, daemon_streaming}

-- The events that `handleSubscribe` received of a run of the feed, each with a notification that was
-- written.
abbrev pub arrived : Feed → List (Event × Bool)
arrived f = map (λ e. (e, true)) f.received

module _ (handler : Handler) (os : Os) (json : Json) (listing : Listing) (wire : Wire)
    (meanwhile : Store → Store) (since : ℤ) (text : String) (client : Client) (s : Store)
    (sent : wire.marshal (Params.since since) ≡ decoded text) where
  -- Where an event of the backlog is: with the caller, as it is read again, in the buffer of the
  -- daemon's channel, or still to be sent to it.
  abbrev IsFollowed : ℤ → Feed → Decoded (List Event) → Type 0
  IsFollowed number f events =
      (e x : Event)
      → In e (backlog number s)
      → wire.event e ≡ decoded x
      → ((es : List Event) × (events ≡ decoded es) × In x es)
        ⊎ In e f.channel.queue
        ⊎ In e f.pending

  -- What is left where the daemon can read the number, and where it cannot.
  abbrev pub Answers : Decoded ℤ → Feed → Subscribed → Type 0
  Answers (decoded number) f c =
      (c.events ≡ decoded (reread_all wire f.received))
      × IsFollowed number f c.events
      × (c.store ≡ cancel (subscribe s).1 (meanwhile (subscribe s).0))
  Answers (malformed message) f c = (c.events ≡ malformed message) × (c.store ≡ s)

  -- A run of the feed of the subscription, where the daemon can read the number.
  abbrev pub Runs : Decoded ℤ → Feed → Type 0
  Runs (decoded number) f = Reach (start number s) f
  Runs (malformed message) f = Unit

  backlog-IsFollowed :
      (number : ℤ) (f : Feed) (events : Decoded (List Event))
      → Reach (start number s) f
      → events ≡ decoded (reread_all wire f.received)
      → IsFollowed number f events
  backlog-IsFollowed number f events run got e x m read = elim (feed-backlog number s e f m run) [
    | inl there ↦
        inl (reread_all wire f.received, got, In-reread_all wire e x f.received read there)
    | inr (inl buffered) ↦ inr (inl buffered)
    | inr (inr left) ↦ inr (inr left)
  ]

  -- `SubscribeEvents` over a connection to the daemon, whose feed takes any run of the steps of
  -- `Subscribe` and `appendEvent`, and where every notification can be written. If the daemon can
  -- read the number, the caller gets exactly the events that `handleSubscribe` received from the
  -- channel, in order, less those that encoding/json cannot read again; an event of the backlog that
  -- it can read again is with the caller, in the buffer of the channel or still to be sent to it; and
  -- the daemon has cancelled the subscription in the end. If the daemon cannot read the number, the
  -- caller gets the error and the store stays as it is. Either way the client counts the request. The
  -- parameters of the request must be marshalled without an error.
  pub subscribe_events-daemon :
      (read : Decoded ℤ) (f : Feed)
      → decode_params (pos 0) json.since text ≡ read
      → Runs read f
      → let c =
          subscribe_events wire
            (daemon_streaming wire handler os json listing meanwhile (arrived f))
            since
            client
            s in
        (c.client.next ≡ client.next + 1) × Answers read f c
  unfolding subscribe_events daemon_streaming serve_conn serve_incoming handle_subscribe
      subscribe_with
  subscribe_events-daemon (malformed message) f e run = rw (sent, e) (refl, (refl, refl))
  subscribe_events-daemon (decoded number) f e run =
      let got : event_stream (map (notification wire) (notify (arrived f)))
          ≡ reread_all wire f.received =
        rw (notify-map f.received) (event_stream-notification wire f.received) in
      rw (sent, e)
        (refl, (ap decoded got, backlog-IsFollowed number f _ run (ap decoded got), refl))
