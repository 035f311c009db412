-- ===== src/Store/Log/Frame.antt =====
-- internal/store/store.go: `appendEvent`, and the parts of the store that it does not write.
use the_score.Base.{List, [], ◌∷◌, ◌≡◌, arith, ℤ}
use the_score.Model.{Event}
use the_score.Store.{Store, tick}
use the_score.Store.Log.{try_send, deliver, stamp, record_event, append_event}

pub record SameGraph (s t : Store) : Type 0 where
  pub sessions : t.sessions ≡ s.sessions
  pub workspaces : t.workspaces ≡ s.workspaces
  pub edges : t.edges ≡ s.edges
  pub sources : t.sources ≡ s.sources

pub record SameLog (s t : Store) : Type 0 where
  pub events : t.events ≡ s.events
  pub next_seq : t.next_seq ≡ s.next_seq
  pub max_events : t.max_events ≡ s.max_events
  pub subscribers : t.subscribers ≡ s.subscribers

try_send-SameGraph : (e : Event) (id : ℤ) (s : Store) → SameGraph s (try_send e id s)
unfolding try_send
try_send-SameGraph e id s = ground arith

try_send-SameLog : (e : Event) (id : ℤ) (s : Store) → SameLog s (try_send e id s)
unfolding try_send
try_send-SameLog e id s = ground arith

deliver-SameGraph : (e : Event) (ids : List ℤ) (s : Store) → SameGraph s (deliver e ids s)
unfolding deliver
deliver-SameGraph e [] s = ground arith
deliver-SameGraph e (id ∷ ids) s =
    ground (arith, try_send-SameGraph e id s, deliver-SameGraph e ids (try_send e id s))

pub deliver-SameLog : (e : Event) (ids : List ℤ) (s : Store) → SameLog s (deliver e ids s)
unfolding deliver
deliver-SameLog e [] s = ground arith
deliver-SameLog e (id ∷ ids) s =
    ground (arith, try_send-SameLog e id s, deliver-SameLog e ids (try_send e id s))

pub append_event-SameGraph : (e : Event) (s : Store) → SameGraph s (append_event e s).0
unfolding append_event record_event
append_event-SameGraph e s =
    ground (arith, deliver-SameGraph (stamp e s) s.subscribers (record_event (stamp e s) (tick s)))
