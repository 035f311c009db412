-- ===== src/Tests/Logging.antt =====
-- Runs of the event log.
use the_score.Base.{false, List, [], ◌∷◌, ◌≡◌, refl, arith, pos, if◌then◌else◌}
use the_score.Model.{Event}
use the_score.Store.{Store, Channel}
use the_score.Store.Log.{append_event, list_events, stamp, find_channel, has_subscriber}
use the_score.Store.Log.Window.{IsWindow}
use the_score.Store.Log.Polling.{append_all, stamps, list_events-append_all}
use the_score.Store.Log.{backlog}
use the_score.Base.{◌<◌, ◌⊎◌, inl, In, length, true}
use the_score.Store.Log.Feed.{
  Feed, Reach, here, next, copy_channel, start, feed-panics, feed-calm, feed-backlog,
  feed-overtakes,
}
use the_score.Store.Log.Delivery.{IsServed, offered?, channels-append_event}
use the_score.Tests.{seconds, note}

-- A log of at most three events that holds the sixth and the seventh, and one subscriber.
abbrev listener : Channel
listener = record { queue = []; closed = false }

abbrev pub logged : Store
logged = record {
  sessions = [];
  workspaces = [];
  edges = [];
  sources = [];
  events = record note { seq = pos 6 } ∷ record note { seq = pos 7 } ∷ [];
  next_seq = pos 7;
  subscribers = pos 0 ∷ [];
  next_sub_id = pos 1;
  max_events = 3;
  channels = record { id = pos 0; channel = listener } ∷ [];
  clock = seconds;
  panicked = false;
}

abbrev logged_window : IsWindow logged
logged_window = record { first = pos 5; consecutive = (refl, (refl, refl)); bounded = omega arith }

logged-IsServed : IsServed logged
unfolding has_subscriber find_channel
logged-IsServed = record { distinct = (refl, tt); each_open = λ id m. ground arith; calm = refl }

abbrev two_notes : List Event
two_notes = note ∷ record note { summary = "again" } ∷ []

list_events-append_all_example :
    list_events (pos 7) (pos 0) (append_all two_notes logged) ≡ stamps two_notes logged
list_events-append_all_example =
    list_events-append_all two_notes logged logged_window 5 refl (omega arith) (omega arith)

channels-append_event_example : find_channel (pos 0) (append_event note logged).0.channels ≡ (
    if has_subscriber (pos 0) logged.subscribers
    then offered? (stamp note logged) (find_channel (pos 0) logged.channels)
    else find_channel (pos 0) logged.channels)
channels-append_event_example = channels-append_event note (pos 0) logged logged-IsServed

one_left : 0 < length (backlog (pos 6) logged)
unfolding backlog
one_left = omega arith

feed-panics_example : (f : Feed) × Reach (start (pos 6) logged) f × (f.panicked ≡ true)
feed-panics_example = feed-panics (pos 6) logged one_left

abbrev copied : Feed
copied = record (start (pos 6) logged) { live = note ∷ [] }

copied_reached : Reach (start (pos 6) logged) copied
copied_reached = next here (copy_channel note refl)

feed-calm_example : (copied.channel.closed ≡ false) × (copied.panicked ≡ false)
feed-calm_example = feed-calm (pos 6) logged copied copied_reached refl

seventh_left : In (record note { seq = pos 7 }) (backlog (pos 6) logged)
unfolding backlog
seventh_left = inl refl

feed-backlog_example :
    let seventh : Event = record note { seq = pos 7 } in
    In seventh copied.received ⊎ In seventh copied.channel.queue ⊎ In seventh copied.pending
feed-backlog_example =
    feed-backlog (pos 6) logged (record note { seq = pos 7 }) copied seventh_left copied_reached

feed-overtakes_example :
    (f : Feed) × Reach (start (pos 6) logged) f
    × (f.received ≡ note ∷ [])
    × (f.pending ≡ backlog (pos 6) logged)
feed-overtakes_example = feed-overtakes (pos 6) logged note
