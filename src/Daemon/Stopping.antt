-- ===== src/Daemon/Stopping.antt =====
-- internal/daemon/server.go, cmd/scored/main.go and the end of `daemon/shutdown` in
-- internal/api/handler.go: the goroutines that bring the daemon to its end, and the accept loop beside
-- them, in any order.
pub mod Laws
use the_score.Base.{ℕ, ◌+◌, ◌-◌, ◌<◌, Bool, true, false, String, [], ◌∷◌, none, ◌≡◌}
use the_score.Daemon.{Accepted, failure, Exit, scored_main}

-- The goroutine of `main` that waits for a signal: before the signal, between `cancel` and
-- `listener.Close`, and at its end.
pub data Waiter : Type 0 where
  waiting : Waiter
  closing : Waiter
  gone : Waiter

-- The loop of `Serve`: in `Accept`, with an error of it (whether it is `net.ErrClosed`, and its text),
-- and behind the end of `main`.
pub data Loop : Type 0 where
  accepting : Loop
  failed : (closed : Bool) (message : String) → Loop
  ended : Exit → Loop

pub record Daemon : Type 0 where
  -- the context is done, and the listener is closed
  pub cancelled : Bool
  pub closed : Bool
  -- a signal arrived, and a request `daemon/shutdown` was answered
  pub signalled : Bool
  pub requested : Bool
  pub waiter : Waiter
  -- the calls of `shutdown` that are to come, and those between `cancel` and `listener.Close`
  pub pending : ℕ
  pub stopping : ℕ
  pub loop : Loop
  pub served : ℕ

-- When `Serve` is called.
abbrev pub listening : Daemon
listening = record {
  cancelled = false;
  closed = false;
  signalled = false;
  requested = false;
  waiter = waiting;
  pending = 0;
  stopping = 0;
  loop = accepting;
  served = 0;
}

-- The text of `net.ErrClosed` is an argument of the step.
pub data Step (d : Daemon) : Daemon → Type 0 where
  signal : Step d (record d { signalled = true })
  signal_cancel :
      d.waiter ≡ waiting
      → d.signalled ≡ true
      → Step d (record d { cancelled = true; waiter = closing })
  signal_close : d.waiter ≡ closing → Step d (record d { closed = true; waiter = gone })
  -- the goroutine of `Serve`
  context_close : d.cancelled ≡ true → Step d (record d { closed = true })
  -- the answer to `daemon/shutdown`; 50 ms later its goroutine calls `shutdown`
  request : Step d (record d { requested = true; pending = d.pending + 1 })
  shutdown_cancel :
      0 < d.pending
      → Step d (record d { cancelled = true; pending = d.pending - 1; stopping = d.stopping + 1 })
  shutdown_close : 0 < d.stopping → Step d (record d { closed = true; stopping = d.stopping - 1 })
  accept : d.loop ≡ accepting → d.closed ≡ false → Step d (record d { served = d.served + 1 })
  accept_closed :
      (message : String)
      → d.loop ≡ accepting
      → d.closed ≡ true
      → Step d (record d { loop = failed true message })
  accept_fails :
      (message : String) → d.loop ≡ accepting → Step d (record d { loop = failed false message })
  -- what `Serve` makes of the error, and `main` of what `Serve` returns
  examine :
      (closed : Bool) (message : String)
      → d.loop ≡ failed closed message
      → Step d
          (record d { loop = ended (scored_main none (failure d.cancelled closed message ∷ [])) })

pub data Reach (d : Daemon) : Daemon → Type 0 where
  here : Reach d d
  next : {e f : Daemon} → Reach d e → Step e f → Reach d f
