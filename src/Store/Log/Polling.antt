-- ===== src/Store/Log/Polling.antt =====
-- A client that polls `ListEvents` with the last number that it saw.
use the_score.Base.{
  ℕ, zero, suc, ◌+◌, ◌-◌, ◌≤◌, List, [], ◌∷◌, ◌++◌, ◌≡◌, refl, arith, ℤ, pos, int64_succ, int64_max,
  length, drop, ltb, ◌∙◌, drop-append, drop-append_le, drop-drop, append-nil, sym, ap, Bool-cases,
  true, false, inl, inr, subst, ltb_ℤ, keep, length-append, length-drop, append_assoc,
}
use mathlib.Core.Path.{◌≡⟨◌⟩◌, ◌∎}
use the_score.Model.{Event}
use the_score.Store.{Store, tick}
use the_score.Store.Log.{trim, stamp, record_event, append_event, list_events}
use the_score.Store.Log.Frame.{deliver-SameLog}
use the_score.Store.Log.Window.{Consecutive, IsWindow, length-trim-le}

-- The store after these events, one `AppendEvent` after another.
pub append_all : List Event → Store → Store
append_all [] s = s
append_all (e ∷ es) s = append_all es (append_event e s).0

-- The events as they were stored.
pub stamps : List Event → Store → List Event
stamps [] s = []
stamps (e ∷ es) s = stamp e s ∷ stamps es (append_event e s).0

-- Below the wrap-around the numbers above `k` are those of the last events.
keep_above :
    (z k : ℕ) (last : ℤ) (es : List Event)
    → Consecutive (pos z) es last
    → z + length es ≤ int64_max
    → keep (λ e. ltb_ℤ (pos k) e.seq) es ≡ drop (k - z) es
keep_above z k last [] h b = elim (Bool-cases (ltb z k)) [
  | inl more ↦ let e : k - z ≡ suc (k - (z + 1)) = ground arith in rw e
  | inr fits ↦ let e : k - z ≡ 0 = ground arith in rw e
]
keep_above z k last (e ∷ es) h b =
    let seq : e.seq ≡ pos (z + 1) = ground arith in
    let rest : keep (λ e. ltb_ℤ (pos k) e.seq) es ≡ drop (k - (z + 1)) es =
      keep_above (z + 1) k last es (subst (λ q. Consecutive q es last) seq h.1) (omega arith) in
    elim (Bool-cases (ltb z k)) [
      | inl more ↦
          let old : ltb k (z + 1) ≡ false = ground arith in
          let e : k - z ≡ suc (k - (z + 1)) = ground arith in rw (e, seq, old) rest
      | inr fits ↦
          let new : ltb k (z + 1) ≡ true = ground arith in
          let e : k - z ≡ 0 = ground arith in
          let e' : k - (z + 1) ≡ 0 = ground arith in rw (e, seq, new, rest, e')
    ]

-- From the last number that a client saw, `ListEvents` resumes at the event behind it: of the
-- retained events it leaves out as many as the number lies beyond the start of the window. No
-- number may have wrapped around.
pub list_events_resume :
    (s : Store) (w : IsWindow s) (z k : ℕ)
    → w.first ≡ pos z
    → z + length s.events ≤ int64_max
    → list_events (pos k) (pos 0) s ≡ drop (k - z) s.events
unfolding list_events
list_events_resume s w z k e b =
    keep_above z k s.next_seq s.events
      (subst (λ q. Consecutive q s.events s.next_seq) e w.consecutive) b

trim-drop : (max : ℕ) (es : List Event) → trim max es ≡ drop (length es - max) es
unfolding trim
trim-drop max es = elim (Bool-cases (ltb max (length es))) [
  | inl more ↦ rw more
  | inr fits ↦ let e : length es - max ≡ 0 = ground arith in rw (fits, e)
]

trim-trim : (max : ℕ) (xs ys : List Event) → trim max (trim max xs ++ ys) ≡ trim max (xs ++ ys)
trim-trim max xs ys =
    let n = length xs - max in
    let m = length (drop n xs ++ ys) - max in
    let e : n + m ≡ length (xs ++ ys) - max =
      omega (arith, length-append xs ys, length-append (drop n xs) ys, length-drop n xs) in
    trim max (trim max xs ++ ys)
    ≡⟨ ap (λ l. trim max (l ++ ys)) (trim-drop max xs) ⟩ trim max (drop n xs ++ ys)
    ≡⟨ trim-drop max (drop n xs ++ ys) ⟩ drop m (drop n xs ++ ys)
    ≡⟨ ap (drop m) (sym (drop-append_le n xs ys (omega arith))) ⟩ drop m (drop n (xs ++ ys))
    ≡⟨ drop-drop m n (xs ++ ys) ⟩ drop (n + m) (xs ++ ys)
    ≡⟨ ap (λ k. drop k (xs ++ ys)) e ⟩ drop (length (xs ++ ys) - max) (xs ++ ys)
    ≡⟨ sym (trim-drop max (xs ++ ys)) ⟩ trim max (xs ++ ys) ∎

-- What one event does to the log.
pub events-append_event :
    (e : Event) (s : Store)
    → ((append_event e s).0.events ≡ trim s.max_events (s.events ++ stamp e s ∷ []))
      × ((append_event e s).0.next_seq ≡ int64_succ s.next_seq)
      × ((append_event e s).0.max_events ≡ s.max_events)
unfolding append_event record_event stamp
events-append_event e s =
    let same = deliver-SameLog (stamp e s) s.subscribers (record_event (stamp e s) (tick s)) in
    (same.events, same.next_seq, same.max_events)

-- The log keeps the last `maxEvents` of all the events that were ever recorded, in their order.
pub append_all-trim :
    (es : List Event) (s : Store)
    → length s.events ≤ s.max_events
    → (append_all es s).events ≡ trim s.max_events (s.events ++ stamps es s)
unfolding append_all stamps
append_all-trim [] s h =
    let e : length s.events - s.max_events ≡ 0 = omega arith in
    rw (append-nil, trim-drop s.max_events s.events, e)
append_all-trim (e ∷ es) s h =
    let s' = (append_event e s).0 in
    let (events, _, max) = events-append_event e s in
    let short : length s'.events ≤ s'.max_events =
      rw (events, max) (length-trim-le s.max_events _) in
    (append_all es s').events
    ≡⟨ append_all-trim es s' short ⟩ trim s'.max_events (s'.events ++ stamps es s')
    ≡⟨ (rw (events, max)) ⟩
      trim s.max_events (trim s.max_events (s.events ++ stamp e s ∷ []) ++ stamps es s')
    ≡⟨ trim-trim s.max_events (s.events ++ stamp e s ∷ []) (stamps es s') ⟩
      trim s.max_events ((s.events ++ stamp e s ∷ []) ++ stamps es s')
    ≡⟨ ap (trim s.max_events) (append_assoc s.events (stamp e s ∷ []) (stamps es s')) ⟩
      trim s.max_events (s.events ++ stamp e s ∷ stamps es s') ∎

stamps-Consecutive :
    (es : List Event) (s : Store) → Consecutive s.next_seq (stamps es s) (append_all es s).next_seq
unfolding append_all stamps stamp
stamps-Consecutive [] s = refl
stamps-Consecutive (e ∷ es) s =
    let s' = (append_event e s).0 in
    let (_, next, _) = events-append_event e s in
    (
      unfold stamp in refl,
      subst (λ q. Consecutive q (stamps es s') (append_all es s').next_seq) next
          (stamps-Consecutive es s'),
    )

Consecutive-append :
    (first mid last : ℤ) (xs ys : List Event)
    → Consecutive first xs mid
    → Consecutive mid ys last
    → Consecutive first (xs ++ ys) last
Consecutive-append first mid last [] ys h k = rw h k
Consecutive-append first mid last (x ∷ xs) ys (h, hs) k =
    (h, Consecutive-append x.seq mid last xs ys hs k)

-- Below the wrap-around a window that loses `n` events starts `n` numbers later.
Consecutive-drop_pos :
    (n z : ℕ) (last : ℤ) (es : List Event)
    → Consecutive (pos z) es last
    → z + length es ≤ int64_max
    → n ≤ length es
    → Consecutive (pos (z + n)) (drop n es) last
Consecutive-drop_pos zero z last es h b p = let e : z + 0 ≡ z = omega arith in rw e h
Consecutive-drop_pos (suc n) z last [] h b p = absurd (omega arith)
Consecutive-drop_pos (suc n) z last (x ∷ es) (e, h) b p =
    let next : x.seq ≡ pos (z + 1) = ground arith in
    let shift : z + suc n ≡ z + 1 + n = omega arith in
    rw shift (
      Consecutive-drop_pos n (z + 1) last es (subst (λ q. Consecutive q es last) next h)
        (omega arith) (omega arith))

Consecutive-last :
    (z : ℕ) (last : ℤ) (es : List Event)
    → Consecutive (pos z) es last
    → z + length es ≤ int64_max
    → last ≡ pos (z + length es)
Consecutive-last z last [] h b = let e : z + 0 ≡ z = omega arith in rw e (sym h)
Consecutive-last z last (x ∷ es) (e, h) b =
    let next : x.seq ≡ pos (z + 1) = ground arith in
    let shift : z + suc (length es) ≡ z + 1 + length es = omega arith in
    rw shift
      (Consecutive-last (z + 1) last es (subst (λ q. Consecutive q es last) next h) (omega arith))

length-stamps : (es : List Event) (s : Store) → length (stamps es s) ≡ length es
unfolding stamps
length-stamps [] s = refl
length-stamps (e ∷ es) s = ap suc (length-stamps es (append_event e s).0)

-- Polling loses and repeats nothing: a client that saw the last number of a store, and polls after
-- at most `maxEvents` further events, receives just those, in order, as they were stored. No number
-- may have wrapped around.
pub list_events-append_all :
    (es : List Event) (s : Store) (w : IsWindow s) (z : ℕ)
    → w.first ≡ pos z
    → z + length s.events + length es ≤ int64_max
    → length es ≤ s.max_events
    → list_events s.next_seq (pos 0) (append_all es s) ≡ stamps es s
unfolding list_events
list_events-append_all es s w z first b fits =
    let k = z + length s.events in
    let st = stamps es s in
    let all = s.events ++ st in
    let n = length all - s.max_events in
    let count : length all ≡ length s.events + length es =
      omega (arith, length-append s.events st, length-stamps es s) in
    let mine : Consecutive (pos z) s.events s.next_seq =
      subst (λ q. Consecutive q s.events s.next_seq) first w.consecutive in
    let top : s.next_seq ≡ pos k = Consecutive-last z s.next_seq s.events mine (omega arith) in
    let whole =
      Consecutive-append (pos z) s.next_seq (append_all es s).next_seq s.events st mine
        (stamps-Consecutive es s) in
    let kept = Consecutive-drop_pos n z _ all whole (omega arith) (omega arith) in
    let skip : n + (k - (z + n)) ≡ length s.events = omega arith in
    let retained : (append_all es s).events ≡ drop n all =
      append_all-trim es s w.bounded ∙ trim-drop s.max_events all in
    ap (λ q. keep (λ e. ltb_ℤ q e.seq) (append_all es s).events) top
    ∙ ap (keep (λ e. ltb_ℤ (pos k) e.seq)) retained
    ∙ keep_above (z + n) k _ (drop n all) kept (omega (arith, length-drop n all))
    ∙ drop-drop (k - (z + n)) n all
    ∙ ap (λ j. drop j all) skip
    ∙ drop-append s.events st
