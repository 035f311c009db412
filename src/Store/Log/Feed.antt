-- ===== src/Store/Log/Feed.antt =====
-- internal/store/store.go: one subscription while it runs. `Subscribe` starts a goroutine that sends
-- the backlog, `appendEvent` sends to the channels that it copied before it let go of the lock, the
-- subscriber receives and may cancel at any time, and nothing orders these steps.
use the_score.Base.{
  ◌<◌, Bool, true, false, List, [], ◌∷◌, ◌++◌, ◌≡◌, refl, ◌⊎◌, inr, arith, ℤ, length, ltb, In, ◌↔◌,
}
use the_score.Model.{Event}
use the_score.Store.{Store, Channel}
use the_score.Store.Log.{channel_capacity, backlog}

-- `pending` is what the goroutine has still to send, `live` the events of the calls of `appendEvent`
-- that have copied the channel and not yet sent, `received` what the subscriber took, in order.
pub record Feed : Type 0 where
  pub pending : List Event
  pub live : List Event
  pub channel : Channel
  pub received : List Event
  -- the channel is in `s.subscribers`
  pub registered : Bool
  pub panicked : Bool

abbrev has_room : Channel → Bool
has_room c = ltb (length c.queue) channel_capacity

abbrev push : Event → Channel → Channel
push e c = record c { queue = c.queue ++ e ∷ [] }

pub data Step (f : Feed) : Feed → Type 0 where
  -- ch <- event, in the goroutine; it waits while there is no room
  send_pending :
      (e : Event) (es : List Event)
      → f.pending ≡ e ∷ es
      → f.channel.closed ≡ false
      → has_room f.channel ≡ true
      → Step f (record f { pending = es; channel = push e f.channel })
  -- the same on a closed channel
  pending_panics :
      (e : Event) (es : List Event)
      → f.pending ≡ e ∷ es
      → f.channel.closed ≡ true
      → Step f (record f { panicked = true })
  -- the critical section of `appendEvent`
  copy_channel : (e : Event) → f.registered ≡ true → Step f (record f { live = f.live ++ e ∷ [] })
  -- select { case ch <- event: default: }
  send_live :
      (xs ys : List Event) (e : Event)
      → f.live ≡ xs ++ e ∷ ys
      → f.channel.closed ≡ false
      → has_room f.channel ≡ true
      → Step f (record f { live = xs ++ ys; channel = push e f.channel })
  drop_live :
      (xs ys : List Event) (e : Event)
      → f.live ≡ xs ++ e ∷ ys
      → f.channel.closed ≡ false
      → has_room f.channel ≡ false
      → Step f (record f { live = xs ++ ys })
  -- the same on a closed channel
  live_panics :
      (xs ys : List Event) (e : Event)
      → f.live ≡ xs ++ e ∷ ys
      → f.channel.closed ≡ true
      → Step f (record f { panicked = true })
  receive :
      (e : Event) (es : List Event)
      → f.channel.queue ≡ e ∷ es
      → Step f
          (record f { channel = record f.channel { queue = es }; received = f.received ++ e ∷ [] })
  -- the function that `Subscribe` returns
  cancelled :
      f.registered ≡ true
      → Step f (record f { channel = record f.channel { closed = true }; registered = false })

pub data Reach (f : Feed) : Feed → Type 0 where
  here : Reach f f
  next : {g h : Feed} → Reach f g → Step g h → Reach f h

-- When `Subscribe` has returned.
abbrev pub start : ℤ → Store → Feed
start since s = record {
  pending = backlog since s;
  live = [];
  channel = record { queue = []; closed = false };
  received = [];
  registered = true;
  panicked = false;
}

first_of : (xs : List Event) → 0 < length xs → (e : Event) × (es : List Event) × (xs ≡ e ∷ es)
first_of [] h = absurd (omega arith)
first_of (e ∷ es) h = (e, es, refl)

-- A subscriber that goes before the goroutine has sent its backlog can end the daemon: where there is
-- an event to send, some run cancels first, and the send on the closed channel panics.
pub feed-panics :
    (since : ℤ) (s : Store)
    → 0 < length (backlog since s)
    → (f : Feed) × Reach (start since s) f × (f.panicked ≡ true)
feed-panics since s some_left =
    let (e, es, there) = first_of (backlog since s) some_left in
    (_, next (next here (cancelled refl)) (pending_panics e es there refl), refl)

-- Nothing panics before the subscriber cancels.
abbrev IsCalm : Feed → Type 0
IsCalm f = f.registered ≡ true → (f.channel.closed ≡ false) × (f.panicked ≡ false)

Step-IsCalm : {f g : Feed} → Step f g → IsCalm f → IsCalm g
Step-IsCalm (send_pending e es p c r) calm on = calm on
Step-IsCalm (pending_panics e es p c) calm on = absurd (ground (arith, calm on, c))
Step-IsCalm (copy_channel e r) calm on = calm on
Step-IsCalm (send_live xs ys e p c r) calm on = calm on
Step-IsCalm (drop_live xs ys e p c r) calm on = calm on
Step-IsCalm (live_panics xs ys e p c) calm on = absurd (ground (arith, calm on, c))
Step-IsCalm (receive e es p) calm on = calm on
Step-IsCalm (cancelled r) calm on = absurd (ground arith)

Reach-IsCalm : {f g : Feed} → Reach f g → IsCalm f → IsCalm g
Reach-IsCalm here calm = calm
Reach-IsCalm (next r st) calm = Step-IsCalm st (Reach-IsCalm r calm)

-- As long as the subscriber has not cancelled, its channel is open and no send has panicked, in every
-- order of the steps.
pub feed-calm :
    (since : ℤ) (s : Store) (f : Feed)
    → Reach (start since s) f
    → f.registered ≡ true
    → (f.channel.closed ≡ false) × (f.panicked ≡ false)
feed-calm since s f r on = Reach-IsCalm r (λ e. (refl, refl)) on

In-snoc : (a x : Event) (xs : List Event) → In a (xs ++ x ∷ []) ↔ (In a xs ⊎ (a ≡ x))
In-snoc a x [] = ground arith
In-snoc a x (y ∷ ys) = ground (arith, In-snoc a x ys)

-- An event of the backlog, on its way.
abbrev IsUnderway : Event → Feed → Type 0
IsUnderway e f = In e f.received ⊎ In e f.channel.queue ⊎ In e f.pending

Step-IsUnderway : (a : Event) {f g : Feed} → Step f g → IsUnderway a f → IsUnderway a g
Step-IsUnderway a {f} (send_pending e es p c r) u =
    ground (arith, In-snoc a e f.channel.queue, p, u)
Step-IsUnderway a (pending_panics e es p c) u = u
Step-IsUnderway a (copy_channel e r) u = u
Step-IsUnderway a {f} (send_live xs ys e p c r) u = ground (arith, In-snoc a e f.channel.queue)
Step-IsUnderway a (drop_live xs ys e p c r) u = u
Step-IsUnderway a (live_panics xs ys e p c) u = u
Step-IsUnderway a {f} (receive e es p) u = ground (arith, In-snoc a e f.received, p, u)
Step-IsUnderway a (cancelled r) u = u

Reach-IsUnderway : (a : Event) {f g : Feed} → Reach f g → IsUnderway a f → IsUnderway a g
Reach-IsUnderway a here u = u
Reach-IsUnderway a (next r st) u = Step-IsUnderway a st (Reach-IsUnderway a r u)

-- No event of the backlog is lost, in every order of the steps: it was received, it is in the buffer
-- of the channel, or the goroutine has still to send it.
pub feed-backlog :
    (since : ℤ) (s : Store) (e : Event) (f : Feed)
    → In e (backlog since s)
    → Reach (start since s) f
    → In e f.received ⊎ In e f.channel.queue ⊎ In e f.pending
feed-backlog since s e f m r = Reach-IsUnderway e r (inr (inr m))

-- A live event can overtake the backlog: whatever is recorded next, some run hands it to the
-- subscriber before any event of the backlog.
pub feed-overtakes :
    (since : ℤ) (s : Store) (live : Event)
    → (f : Feed) × Reach (start since s) f
      × (f.received ≡ live ∷ [])
      × (f.pending ≡ backlog since s)
feed-overtakes since s live = (
  _,
  next (next (next here (copy_channel live refl)) (send_live [] [] live refl refl refl))
      (receive live [] refl),
  refl,
  refl,
)
