-- ===== src/Store/Log/Window.antt =====
-- internal/store/store.go: `appendEvent`, and the retained events as a window on the history.
use the_score.Base.{
  ℕ, zero, suc, ◌-◌, ◌≤◌, List, [], ◌∷◌, ◌++◌, ◌≡◌, refl, arith, ℤ, int64_succ, length, drop, ltb,
  Bool-cases, inl, inr, length-drop,
}
use the_score.Model.{Event}
use the_score.Store.{Store, tick}
use the_score.Store.Log.{trim, stamp, record_event, append_event}
use the_score.Store.Log.Frame.{deliver-SameLog}

-- The events carry the numbers after `first`, one by one, and end at `last`.
abbrev pub Consecutive : ℤ → List Event → ℤ → Type 0
Consecutive first [] last = first ≡ last
Consecutive first (e ∷ es) last = (e.seq ≡ int64_succ first) × Consecutive e.seq es last

pub record IsWindow (s : Store) : Type 0 where
  pub first : ℤ
  pub consecutive : Consecutive first s.events s.next_seq
  pub bounded : length s.events ≤ s.max_events

Consecutive-snoc :
    (first last : ℤ) (es : List Event) (e : Event)
    → Consecutive first es last
    → e.seq ≡ int64_succ last
    → Consecutive first (es ++ e ∷ []) e.seq
Consecutive-snoc first last [] e h p = ground arith
Consecutive-snoc first last (x ∷ es) e h p = (h.0, Consecutive-snoc x.seq last es e h.1 p)

Consecutive-drop :
    (n : ℕ) (first last : ℤ) (es : List Event)
    → Consecutive first es last
    → (z : ℤ) × Consecutive z (drop n es) last
Consecutive-drop zero first last es h = (first, h)
Consecutive-drop (suc n) first last [] h = (first, h)
Consecutive-drop (suc n) first last (x ∷ es) h = Consecutive-drop n x.seq last es h.1

trim-Consecutive :
    (max : ℕ) (first last : ℤ) (es : List Event)
    → Consecutive first es last
    → (z : ℤ) × Consecutive z (trim max es) last
unfolding trim
trim-Consecutive max first last es h = elim (Bool-cases (ltb max (length es))) [
  | inl more ↦ rw more (Consecutive-drop (length es - max) first last es h)
  | inr fits ↦ rw fits (first, h)
]

pub length-trim-le : (max : ℕ) (es : List Event) → length (trim max es) ≤ max
unfolding trim
length-trim-le max es = ground (arith, length-drop (length es - max) es)

-- Recording an event keeps the retained events consecutive up to the last number given, also where
-- the 64-bit counter wraps around, and no more of them than `maxEvents`.
pub append_event-IsWindow : (e : Event) (s : Store) → IsWindow s → IsWindow (append_event e s).0
unfolding append_event record_event stamp
append_event-IsWindow e s w =
    let same = deliver-SameLog (stamp e s) s.subscribers (record_event (stamp e s) (tick s)) in
    let grown = Consecutive-snoc w.first s.next_seq s.events (stamp e s) w.consecutive refl in
    let (z, kept) = trim-Consecutive s.max_events w.first _ (s.events ++ stamp e s ∷ []) grown in
    record {
      first = z;
      consecutive = rw (same.events, same.next_seq) kept;
      bounded = rw (same.events, same.max_events) (length-trim-le s.max_events _);
    }
