-- ===== src/Cli/Run/Signals.antt =====
-- cmd/score/main.go: the goroutine of `score run` that waits for a signal while the command runs, and
-- the steps of the command and of `runObservedCommand` beside it, in any order.
pub mod Safety
use the_score.Base.{
  ℕ, ◌+◌, ◌≤◌, Bool, true, false, String, Option, none, some, ◌≡◌, refl, ◌⊎◌, inl, inr, arith, ℤ,
  pos,
}
use the_score.Model.Status
use the_score.Cli.Run.{Waited, finished, Verdict, verdict, waited_verdict}

-- Where the goroutine is: in its outer `select`, between the receipt of a signal and the two steps that
-- follow it, in its inner `select`, or at its end.
pub data Watcher : Type 0 where
  selecting : Watcher
  storing : Watcher
  forwarding : Watcher
  waiting_done : Watcher
  gone : Watcher

-- Where `runObservedCommand` is: in `cmd.Wait`, before and behind `close(done)`, and once it has read
-- `stopped`.
pub data Main : Type 0 where
  waiting : Main
  waited : Waited → Main
  closed : Waited → Main
  judged : Waited → (stopped : Bool) → Main

pub record Running : Type 0 where
  -- how the command ended, if it did
  pub ended : Option Waited
  -- a signal is in the channel, which holds one
  pub pending : Bool
  pub watcher : Watcher
  pub main : Main
  pub done : Bool
  pub stopped : Bool
  -- how many signals arrived, and how many the command was sent
  pub arrived : ℕ
  pub sent : ℕ
  pub killed : Bool

abbrev pub begun : Running
begun = record {
  ended = none;
  pending = false;
  watcher = selecting;
  main = waiting;
  done = false;
  stopped = false;
  arrived = 0;
  sent = 0;
  killed = false;
}

pub data Step (r : Running) : Running → Type 0 where
  -- a signal that finds the channel full is lost
  signal : Step r (record r { pending = true; arrived = r.arrived + 1 })
  take_signal :
      r.watcher ≡ selecting
      → r.pending ≡ true
      → Step r (record r { watcher = storing; pending = false })
  take_done : r.watcher ≡ selecting → r.done ≡ true → Step r (record r { watcher = gone })
  store_stopped : r.watcher ≡ storing → Step r (record r { watcher = forwarding; stopped = true })
  send_signal :
      r.watcher ≡ forwarding → Step r (record r { watcher = waiting_done; sent = r.sent + 1 })
  take_done_later : r.watcher ≡ waiting_done → r.done ≡ true → Step r (record r { watcher = gone })
  -- two seconds later
  kill : r.watcher ≡ waiting_done → Step r (record r { watcher = gone; killed = true })
  -- the command ends
  end_command : (w : Waited) → r.ended ≡ none → Step r (record r { ended = some w })
  return_wait :
      (w : Waited) → r.main ≡ waiting → r.ended ≡ some w → Step r (record r { main = waited w })
  close_done : (w : Waited) → r.main ≡ waited w → Step r (record r { main = closed w; done = true })
  load_stopped : (w : Waited) → r.main ≡ closed w → Step r (record r { main = judged w r.stopped })

pub data Reach (r : Running) : Running → Type 0 where
  here : Reach r r
  next : {s t : Running} → Reach r s → Step s t → Reach r t
