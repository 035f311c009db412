-- ===== src/Cli/Run/Signals/Safety.antt =====
-- cmd/score/main.go: what holds in every order of the steps of `score run` and its goroutine.
use the_score.Base.{◌≤◌, ◌<◌, Bool, true, false, String, some, ◌≡◌, refl, ◌⊎◌, arith}
use the_score.Cli.Run.{Waited, verdict}
use the_score.Cli.Run.Signals.{
  Watcher, selecting, storing, forwarding, waiting_done, gone, waited, closed, judged, Running,
  begun, Step, signal, take_signal, take_done, store_stopped, send_signal, take_done_later, kill,
  end_command, return_wait, close_done, load_stopped, Reach, here, next,
}

-- What the goroutine has done by where it is, and what `cmd.Wait` has returned.
record IsSound (r : Running) : Type 0 where
  pending : r.pending ≡ true → 0 < r.arrived
  stopped : r.stopped ≡ true → 0 < r.arrived
  sent : (r.sent ≡ 0) ⊎ ((r.sent ≡ 1) × (r.stopped ≡ true))
  killed : r.killed ≡ true → (r.sent ≡ 1) × (r.stopped ≡ true)
  at_selecting : r.watcher ≡ selecting → (r.sent ≡ 0) × (r.stopped ≡ false)
  at_storing : r.watcher ≡ storing → (0 < r.arrived) × (r.sent ≡ 0)
  at_forwarding : r.watcher ≡ forwarding → (r.stopped ≡ true) × (r.sent ≡ 0)
  at_waiting : r.watcher ≡ waiting_done → (r.stopped ≡ true) × (r.sent ≡ 1)
  waited_for : (w : Waited) → r.main ≡ waited w → r.ended ≡ some w
  closed_for : (w : Waited) → r.main ≡ closed w → r.ended ≡ some w
  judged_for :
      (w : Waited) (b : Bool)
      → r.main ≡ judged w b
      → (r.ended ≡ some w) × (b ≡ true → r.stopped ≡ true)

Step-IsSound : {r s : Running} → Step r s → IsSound r → IsSound s
Step-IsSound signal v = grind arith
Step-IsSound (take_signal at p) v = grind arith
Step-IsSound (take_done at d) v = grind arith
Step-IsSound (store_stopped at) v = grind arith
Step-IsSound (send_signal at) v = grind arith
Step-IsSound (take_done_later at d) v = grind arith
Step-IsSound (kill at) v = grind arith
Step-IsSound (end_command w e) v = grind arith
Step-IsSound (return_wait w m e) v = grind arith
Step-IsSound (close_done w m) v = grind arith
Step-IsSound (load_stopped w m) v = grind arith

begun-IsSound : IsSound begun
begun-IsSound = grind arith

Reach-IsSound : {r s : Running} → Reach r s → IsSound r → IsSound s
Reach-IsSound here v = v
Reach-IsSound (next reach st) v = Step-IsSound st (Reach-IsSound reach v)

verdict_without_signal :
    (w : Waited) (b : Bool) (command : String) (r : Running)
    → (b ≡ true → r.stopped ≡ true)
    → (r.stopped ≡ true → 0 < r.arrived)
    → r.arrived ≡ 0
    → verdict command b w ≡ verdict command false w
verdict_without_signal w true command r set arrived none_arrived =
    absurd (omega (arith, arrived (set refl)))
verdict_without_signal w false command r set arrived none_arrived = refl

-- In every order of the steps: the command is sent at most one signal, and is killed only after a
-- signal arrived and was sent to it; `stopped` is found set only where a signal arrived; and without
-- a signal the verdict is the one on how the command ended.
pub signals_sound :
    (r : Running)
    → Reach begun r
    → (r.sent ≤ 1)
      × (r.killed ≡ true → (0 < r.arrived) × (r.sent ≡ 1))
      × ((w : Waited) (b : Bool) (command : String)
          → r.main ≡ judged w b
          → (r.ended ≡ some w)
            × (b ≡ true → 0 < r.arrived)
            × (r.arrived ≡ 0 → verdict command b w ≡ verdict command false w))
signals_sound r reach =
    let v = Reach-IsSound reach begun-IsSound in
    (
      grind (arith, v.sent),
      grind (arith, v.killed, v.stopped),
      λ w b command e.
          let j = v.judged_for w b e in
          (j.0, λ set. v.stopped (j.1 set), verdict_without_signal w b command r j.1 v.stopped),
    )

Reach-trans : {r s t : Running} → Reach s t → Reach r s → Reach r t
Reach-trans here first = first
Reach-trans (next reach st) first = next (Reach-trans reach first) st

watcher_ends_from :
    (r : Running) (at : Watcher)
    → r.watcher ≡ at
    → r.done ≡ true
    → (s : Running) × Reach r s × (s.watcher ≡ gone)
watcher_ends_from r selecting e closing = (_, next here (take_done e closing), refl)
watcher_ends_from r storing e closing = (
  _,
  next (next (next here (store_stopped e)) (send_signal refl)) (take_done_later refl closing),
  refl,
)
watcher_ends_from r forwarding e closing =
    (_, next (next here (send_signal e)) (take_done_later refl closing), refl)
watcher_ends_from r waiting_done e closing = (_, next here (take_done_later e closing), refl)
watcher_ends_from r gone e closing = (r, here, e)

-- The goroutine always comes to its end once `done` is closed: from every state some run leads there.
pub watcher_ends : (r : Running) → r.done ≡ true → (s : Running) × Reach r s × (s.watcher ≡ gone)
watcher_ends r closing = watcher_ends_from r r.watcher refl closing

-- A signal that arrives after the command has ended can still make `score run` report it as stopped:
-- however it ended, some run judges it with `stopped` set, though no signal had arrived by its end.
pub judged_late :
    (w : Waited)
    → (r : Running) × (s : Running) × Reach begun r
      × (r.ended ≡ some w)
      × (r.arrived ≡ 0)
      × Reach r s
      × (s.main ≡ judged w true)
judged_late w = (
  _,
  _,
  next here (end_command w refl),
  refl,
  refl,
  next
      (next
        (next (next (next (next here signal) (take_signal refl refl)) (store_stopped refl))
          (return_wait w refl refl))
        (close_done w refl))
      (load_stopped w refl),
  refl,
)
