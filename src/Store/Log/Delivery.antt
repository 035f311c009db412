-- ===== src/Store/Log/Delivery.antt =====
-- Handing an event to the subscribers.
use the_score.Base.{
  List, [], ◌∷◌, ◌++◌, true, false, not, Option, none, some, ◌≡◌, refl, arith, ℤ, eqb_ℤ, eqb_ℤ_iff,
  length, ltb, if◌then◌else◌, keep, Option-cases, ◌&&◌, Bool-cases, inl, inr,
}
use the_score.Model.{Event}
use the_score.Store.{Store, Channel, Subscription, tick}
use the_score.Store.Log.{
  channel_capacity, find_channel, set_channel, try_send, deliver, stamp, record_event, append_event,
  has_subscriber, subscribe, cancel,
}
use the_score.Store.Log.Frame.{deliver-SameLog}

-- The channel after a send that does not block: the event joins the queue if there is room.
abbrev pub offered : Event → Channel → Channel
offered e c =
    if ltb (length c.queue) channel_capacity then record c { queue = c.queue ++ e ∷ [] } else c

-- No id stands twice, as the keys of a map.
abbrev Distinct : List ℤ → Type 0
Distinct [] = Unit
Distinct (id ∷ ids) = (has_subscriber id ids ≡ false) × Distinct ids

find-set_channel :
    (id j : ℤ) (c old : Channel) (es : List Subscription)
    → find_channel id es ≡ some old
    → find_channel j (set_channel id c es) ≡ (if eqb_ℤ id j then some c else find_channel j es)
unfolding find_channel set_channel
find-set_channel id j c old [] h = cc
find-set_channel id j c old (e ∷ es) h =
    ground
      (arith, eqb_ℤ_iff e.id id, eqb_ℤ_iff e.id j, eqb_ℤ_iff id j, find-set_channel id j c old es)

-- A channel that is there and open.
abbrev IsOpen : Option Channel → Type 0
IsOpen none = ⊥
IsOpen (some c) = c.closed ≡ false

abbrev pub offered? : Event → Option Channel → Option Channel
offered? e none = none
offered? e (some c) = some (offered e c)

try_send_lem :
    (e : Event) (id j : ℤ) (s : Store)
    → IsOpen (find_channel id s.channels)
    → (find_channel j (try_send e id s).channels ≡ (
        if eqb_ℤ id j then offered? e (find_channel j s.channels) else find_channel j s.channels))
      × ((try_send e id s).panicked ≡ s.panicked)
unfolding try_send
try_send_lem e id j s h = elim (Option-cases (find_channel id s.channels)) [
  | inl missing ↦ absurd (rw missing at h)
  | inr (c, found) ↦ ground (
    arith,
    eqb_ℤ_iff id j,
    find-set_channel id j (record c { queue = c.queue ++ e ∷ [] }) c s.channels found,
  )
]

-- Every subscriber in a list has a channel that is open.
abbrev AllOpen : List ℤ → Store → Type 0
AllOpen ids s = (id : ℤ) → has_subscriber id ids ≡ true → IsOpen (find_channel id s.channels)

IsOpen-offered? : (e : Event) (o : Option Channel) → IsOpen o → IsOpen (offered? e o)
IsOpen-offered? e none h = h
IsOpen-offered? e (some c) h = ground arith

try_send-IsOpen :
    (e : Event) (id j : ℤ) (s : Store)
    → IsOpen (find_channel id s.channels)
    → IsOpen (find_channel j s.channels)
    → IsOpen (find_channel j (try_send e id s).channels)
try_send-IsOpen e id j s h k = elim (Bool-cases (eqb_ℤ id j)) [
  | inl same ↦ rw ((try_send_lem e id j s h).0, same) (IsOpen-offered? e _ k)
  | inr other ↦ rw ((try_send_lem e id j s h).0, other) k
]

-- Where the ids are distinct and their channels are open, every listed channel is offered the event
-- once, no other channel is touched, and nothing panics.
deliver_lem :
    (e : Event) (ids : List ℤ) (j : ℤ) (s : Store)
    → Distinct ids
    → AllOpen ids s
    → (find_channel j (deliver e ids s).channels ≡ (
        if has_subscriber j ids
        then offered? e (find_channel j s.channels)
        else find_channel j s.channels))
      × ((deliver e ids s).panicked ≡ s.panicked)
unfolding deliver has_subscriber
deliver_lem e [] j s d h = (refl, refl)
deliver_lem e (id ∷ ids) j s (fresh, d) h =
    let open_id : IsOpen (find_channel id s.channels) = h id (ground (arith, eqb_ℤ_iff id id)) in
    let later : AllOpen ids (try_send e id s) =
      λ k m. try_send-IsOpen e id k s open_id (h k (ground (arith))) in
    ground (
      arith,
      eqb_ℤ_iff id j,
      try_send_lem e id j s open_id,
      deliver_lem e ids j (try_send e id s) d later,
    )

-- The subscribers of a store can be served: their ids are distinct, their channels are open, and no
-- goroutine has panicked.
pub record IsServed (s : Store) : Type 0 where
  pub distinct : Distinct s.subscribers
  pub each_open : AllOpen s.subscribers s
  pub calm : s.panicked ≡ false

-- Each subscriber is offered the stamped event once, and every other channel stays as it is.
pub channels-append_event :
    (e : Event) (id : ℤ) (s : Store)
    → IsServed s
    → find_channel id (append_event e s).0.channels ≡ (
        if has_subscriber id s.subscribers
        then offered? (stamp e s) (find_channel id s.channels)
        else find_channel id s.channels)
unfolding append_event record_event
channels-append_event e id s v =
    (deliver_lem (stamp e s) s.subscribers id (record_event (stamp e s) (tick s)) v.distinct
      v.each_open).0

subscribers-append_event :
    (e : Event) (s : Store) → (append_event e s).0.subscribers ≡ s.subscribers
unfolding append_event record_event
subscribers-append_event e s =
    (deliver-SameLog (stamp e s) s.subscribers (record_event (stamp e s) (tick s))).subscribers

panicked-append_event :
    (e : Event) (s : Store) → IsServed s → (append_event e s).0.panicked ≡ s.panicked
unfolding append_event record_event
panicked-append_event e s v =
    (deliver_lem (stamp e s) s.subscribers (ℤ.pos 0) (record_event (stamp e s) (tick s)) v.distinct
      v.each_open).1

-- Recording an event leaves a store whose subscribers can be served.
pub append_event-IsServed : (e : Event) (s : Store) → IsServed s → IsServed (append_event e s).0
append_event-IsServed e s v = record {
  distinct = rw (subscribers-append_event e s) v.distinct;
  each_open = λ id m.
      let member : has_subscriber id s.subscribers ≡ true =
        rw (subscribers-append_event e s) at m in
      rw (channels-append_event e id s v, member)
        (IsOpen-offered? (stamp e s) _ (v.each_open id member));
  calm = rw (panicked-append_event e s v) v.calm;
}

pub subscribe-IsServed : (s : Store) → IsServed s → IsServed (subscribe s).0
unfolding subscribe
subscribe-IsServed s v = record {
  distinct = ground (arith, v.distinct);
  each_open = λ id m.
      unfold find_channel has_subscriber in
      ground (arith, v.each_open id, eqb_ℤ_iff s.next_sub_id id);
  calm = v.calm;
}

has_subscriber-keep :
    (id j : ℤ) (ids : List ℤ)
    → has_subscriber j (keep (λ k. not (eqb_ℤ k id)) ids)
      ≡ (not (eqb_ℤ j id) && has_subscriber j ids)
unfolding has_subscriber
has_subscriber-keep id j [] = ground arith
has_subscriber-keep id j (k ∷ ids) =
    ground (arith, eqb_ℤ_iff k id, eqb_ℤ_iff j id, eqb_ℤ_iff k j, has_subscriber-keep id j ids)

keep-Distinct : (id : ℤ) (ids : List ℤ) → Distinct ids → Distinct (keep (λ k. not (eqb_ℤ k id)) ids)
keep-Distinct id [] d = tt
keep-Distinct id (k ∷ ids) (fresh, d) =
    ground (arith, keep-Distinct id ids d, has_subscriber-keep id k ids)

channels-cancel :
    (id j : ℤ) (s : Store)
    → eqb_ℤ j id ≡ false
    → find_channel j (cancel id s).channels ≡ find_channel j s.channels
unfolding cancel
channels-cancel id j s h = elim (Option-cases (find_channel id s.channels)) [
  | inl missing ↦ ground arith
  | inr (c, found) ↦ ground (
    arith,
    eqb_ℤ_iff id j,
    eqb_ℤ_iff j id,
    find-set_channel id j (record c { closed = true }) c s.channels found,
  )
]

member-cancel :
    (id j : ℤ) (s : Store)
    → has_subscriber j (cancel id s).subscribers ≡ true
    → (has_subscriber j s.subscribers ≡ true) × (eqb_ℤ j id ≡ false)
unfolding cancel
member-cancel id j s m = ground (arith, has_subscriber-keep id j s.subscribers, eqb_ℤ_iff j id)

-- The function that `Subscribe` returns takes its id off and closes its channel; the other
-- subscribers can still be served.
pub cancel-IsServed : (id : ℤ) (s : Store) → IsServed s → IsServed (cancel id s)
cancel-IsServed id s v = record {
  distinct = unfold cancel in ground (arith, v.distinct, keep-Distinct id s.subscribers v.distinct);
  each_open = λ j m.
      let (member, other) = member-cancel id j s m in
      rw (channels-cancel id j s other) (v.each_open j member);
  calm = unfold cancel in ground (arith, v.calm);
}
