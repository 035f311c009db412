-- ===== src/Store/Log.antt =====
-- internal/store/store.go: the event log and its subscribers (`appendEvent`, `AppendEvent`,
-- `ListEvents`, `Subscribe` and the function that it returns to cancel).
pub mod Frame
pub mod Window
pub mod Polling
pub mod Delivery
pub mod Feed
use the_score.Base.{
  ℕ, ◌+◌, ◌-◌, Bool, true, false, not, ◌||◌, List, [], ◌∷◌, ◌++◌, Option, none, some, if◌then◌else◌,
  ltb, length, drop, keep, ℤ, pos, int64_succ, ltb_ℤ, eqb_ℤ,
}
use the_score.Model.{Event}
use the_score.Store.{Store, Channel, Subscription, now, tick, or_time}

abbrev pub channel_capacity : ℕ
channel_capacity = 128

unfoldable pub find_channel : ℤ → List Subscription → Option Channel
find_channel id [] = none
find_channel id (e ∷ es) = if eqb_ℤ e.id id then some e.channel else find_channel id es

pub set_channel : ℤ → Channel → List Subscription → List Subscription
set_channel id c [] = []
set_channel id c (e ∷ es) =
    if eqb_ℤ e.id id then record e { channel = c } ∷ es else e ∷ set_channel id c es

-- select { case ch <- event: default: }
pub try_send : Event → ℤ → Store → Store
try_send event id s = elim (find_channel id s.channels) [
  | none ↦ s
  | some c ↦
      if c.closed
      then record s { panicked = true }
      else if ltb (length c.queue) channel_capacity
      then record s {
        channels = set_channel id (record c { queue = c.queue ++ event ∷ [] }) s.channels;
      }
      else s
]

unfoldable pub deliver : Event → List ℤ → Store → Store
deliver event [] s = s
deliver event (id ∷ ids) s = deliver event ids (try_send event id s)

-- s.events = s.events[len(s.events)-s.maxEvents:], if there are more
unfoldable pub trim : ℕ → List Event → List Event
trim max events = if ltb max (length events) then drop (length events - max) events else events

-- The event as it is stored: with a time and the next sequence number.
unfoldable pub stamp : Event → Store → Event
stamp event s = record event {
  observed_at = or_time event.observed_at (now s);
  seq = int64_succ s.next_seq;
}

-- The critical section of `appendEvent`.
unfoldable pub record_event : Event → Store → Store
unfolding trim
record_event event s = record s {
  next_seq = event.seq;
  events = trim s.max_events (s.events ++ event ∷ []);
}

unfoldable pub append_event : Event → Store → Store × Event
append_event event s =
    let stamped = stamp event s in
    (deliver stamped s.subscribers (record_event stamped (tick s)), stamped)

pub list_events : ℤ → ℤ → Store → List Event
list_events since limit s =
    let out = keep (λ event. ltb_ℤ since event.seq) s.events in
    elim limit [
      | ℤ.pos n ↦
          if ltb 0 n then (if ltb n (length out) then drop (length out - n) out else out) else out
      | ℤ.negsuc n ↦ out
    ]

-- What the goroutine of `Subscribe` has to send: the logged events behind `since`.
unfoldable pub backlog : ℤ → Store → List Event
backlog since s = keep (λ event. ltb_ℤ since event.seq) s.events

unfoldable pub has_subscriber : ℤ → List ℤ → Bool
has_subscriber id [] = false
has_subscriber id (j ∷ ids) = eqb_ℤ j id || has_subscriber id ids

-- The critical section of `Subscribe`. It returns the id, under which the channel is found; the
-- goroutine that it starts sends the `backlog`.
unfoldable pub subscribe : Store → Store × ℤ
subscribe s =
    let id = s.next_sub_id in
    let made : Subscription = record { id = id; channel = record { queue = []; closed = false } } in
    (
      record s {
        next_sub_id = int64_succ id;
        subscribers = if has_subscriber id s.subscribers then s.subscribers else id ∷ s.subscribers;
        channels = made ∷ s.channels;
      },
      id,
    )

-- delete(s.subscribers, id); close(sub)
unfoldable pub cancel : ℤ → Store → Store
cancel id s =
    if has_subscriber id s.subscribers
    then record s {
      subscribers = keep (λ j. not (eqb_ℤ j id)) s.subscribers;
      channels = elim (find_channel id s.channels) [
        | none ↦ s.channels
        | some c ↦ set_channel id (record c { closed = true }) s.channels
      ];
    }
    else s
