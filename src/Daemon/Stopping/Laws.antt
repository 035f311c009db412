-- ===== src/Daemon/Stopping/Laws.antt =====
-- internal/daemon/server.go and cmd/scored/main.go: how the daemon ends, in every order of the steps.
use the_score.Base.{
  ◌<◌, Bool, true, false, String, [], ◌∷◌, none, ◌||◌, if◌then◌else◌, ap, ◌≡◌, refl, subst, ◌⊎◌,
  inl, inr, arith, sym, ◌∙◌,
}
use the_score.Strings.{◌⧺◌}
use the_score.Daemon.{failure, Exit, exited, scored_main, serve, served_exit}
use the_score.Daemon.Stopping.{
  Waiter, waiting, closing, gone, accepting, failed, ended, Daemon, listening, Step, signal,
  signal_cancel, signal_close, context_close, request, shutdown_cancel, shutdown_close, accept,
  accept_closed, accept_fails, examine, Reach, here, next,
}

ended_inj : {x y : Exit} → ended x ≡ ended y → x ≡ y
ended_inj e = ground arith

-- What `main` makes of an error of `Accept`.
examined :
    (cancelled closed : Bool) (message : String)
    → scored_main none (failure cancelled closed message ∷ [])
      ≡ (if cancelled || closed then exited 0 "" else exited 1 ("scored: " ⧺ message))
unfolding scored_main serve served_exit
examined true closed message = refl
examined false true message = refl
examined false false message = refl

-- An error of `Accept` ends the daemon well where the context is done, and with status 1 elsewhere; the
-- listener is closed only where the context is done.
examined_cases :
    (cancelled closed : Bool) (message : String)
    → (closed ≡ true → cancelled ≡ true)
    → let x = scored_main none (failure cancelled closed message ∷ []) in
      ((x ≡ exited 0 "") × (cancelled ≡ true))
      ⊎ ((message : String) × (x ≡ exited 1 ("scored: " ⧺ message)))
examined_cases true closed message h = inl (examined true closed message, refl)
examined_cases false true message h = absurd (ground (arith, h refl))
examined_cases false false message h = inr (message, examined false false message)

record IsSound (d : Daemon) : Type 0 where
  cancelled : d.cancelled ≡ true → (d.signalled ≡ true) ⊎ (d.requested ≡ true)
  closed : d.closed ≡ true → d.cancelled ≡ true
  closing_waiter : d.waiter ≡ closing → d.cancelled ≡ true
  gone_waiter : d.waiter ≡ gone → d.cancelled ≡ true
  pending : 0 < d.pending → d.requested ≡ true
  stopping : 0 < d.stopping → d.cancelled ≡ true
  requested : d.requested ≡ true → (0 < d.pending) ⊎ (d.cancelled ≡ true)
  failed_closed : (message : String) → d.loop ≡ failed true message → d.cancelled ≡ true
  ended_well :
      (x : Exit)
      → d.loop ≡ ended x
      → ((x ≡ exited 0 "") × (d.cancelled ≡ true))
        ⊎ ((message : String) × (x ≡ exited 1 ("scored: " ⧺ message)))

Step-IsSound : {d e : Daemon} → Step d e → IsSound d → IsSound e
Step-IsSound signal v = grind arith
Step-IsSound (signal_cancel w s) v = grind arith
Step-IsSound (signal_close w) v = grind arith
Step-IsSound (context_close c) v = grind arith
Step-IsSound request v = grind arith
Step-IsSound (shutdown_cancel p) v = grind arith
Step-IsSound (shutdown_close p) v = grind arith
Step-IsSound (accept l c) v = grind arith
Step-IsSound (accept_closed message l c) v = grind arith
Step-IsSound (accept_fails message l) v = grind arith
Step-IsSound {d} (examine closed message l) v = record {
  cancelled = v.cancelled;
  closed = v.closed;
  closing_waiter = v.closing_waiter;
  gone_waiter = v.gone_waiter;
  pending = v.pending;
  stopping = v.stopping;
  requested = v.requested;
  failed_closed = λ text e. absurd (ground arith);
  ended_well = λ x e.
      subst
        (λ y.
          ((y ≡ exited 0 "") × (d.cancelled ≡ true))
          ⊎ ((text : String) × (y ≡ exited 1 ("scored: " ⧺ text))))
        (ended_inj e)
        (examined_cases d.cancelled closed message
          (λ t. v.failed_closed message (l ∙ ap (λ c. failed c message) t)));
}

listening-IsSound : IsSound listening
listening-IsSound = grind arith

Reach-IsSound : {d e : Daemon} → Reach d e → IsSound d → IsSound e
Reach-IsSound here v = v
Reach-IsSound (next reach st) v = Step-IsSound st (Reach-IsSound reach v)

-- In every order of the steps, the daemon ends with status 0 only after a signal or a request
-- `daemon/shutdown`, and otherwise with status 1 and an error of `Accept`.
pub stopping_sound :
    (d : Daemon) (x : Exit)
    → Reach listening d
    → d.loop ≡ ended x
    → ((x ≡ exited 0 "") × ((d.signalled ≡ true) ⊎ (d.requested ≡ true)))
      ⊎ ((message : String) × (x ≡ exited 1 ("scored: " ⧺ message)))
stopping_sound d x reach e =
    let v = Reach-IsSound reach listening-IsSound in
    elim (v.ended_well x e) [ inl well ↦ inl (well.0, v.cancelled well.1) | inr error ↦ inr error ]

-- Once the context is done and `Serve` still waits, the daemon can only end with status 0.
record IsStopping (d : Daemon) : Type 0 where
  done : d.cancelled ≡ true
  well : (x : Exit) → d.loop ≡ ended x → x ≡ exited 0 ""

Step-IsStopping : {d e : Daemon} → Step d e → IsStopping d → IsStopping e
Step-IsStopping signal v = grind arith
Step-IsStopping (signal_cancel w s) v = grind arith
Step-IsStopping (signal_close w) v = grind arith
Step-IsStopping (context_close c) v = grind arith
Step-IsStopping request v = grind arith
Step-IsStopping (shutdown_cancel p) v = grind arith
Step-IsStopping (shutdown_close p) v = grind arith
Step-IsStopping (accept l c) v = grind arith
Step-IsStopping (accept_closed message l c) v = grind arith
Step-IsStopping (accept_fails message l) v = grind arith
Step-IsStopping {d} (examine closed message l) v = record {
  done = v.done;
  well = λ x e.
      sym (ended_inj e)
      ∙ ap (λ c. scored_main none (failure c closed message ∷ [])) v.done
      ∙ examined true closed message;
}

Reach-IsStopping : {d e : Daemon} → Reach d e → IsStopping d → IsStopping e
Reach-IsStopping here v = v
Reach-IsStopping (next reach st) v = Step-IsStopping st (Reach-IsStopping reach v)

Reach-trans : {d e f : Daemon} → Reach e f → Reach d e → Reach d f
Reach-trans here first = first
Reach-trans (next reach st) first = next (Reach-trans reach first) st

-- From a done context some run ends the daemon well.
cancelled_ends :
    (d : Daemon)
    → d.cancelled ≡ true
    → d.loop ≡ accepting
    → (e : Daemon) × Reach d e × (e.loop ≡ ended (exited 0 ""))
cancelled_ends d done waits = (
  _,
  next (next (next here (context_close done)) (accept_closed "" waits refl)) (examine true "" refl),
  ap ended (ap (λ c. scored_main none (failure c true "" ∷ [])) done ∙ examined true true ""),
)

-- From a told stop some run cancels the context, and leaves the loop where it is.
abbrev Cancels : Daemon → Type 0
Cancels d = (e : Daemon) × Reach d e × (e.cancelled ≡ true) × (e.loop ≡ d.loop)

signalled-Cancels :
    (d : Daemon) (at : Waiter) → IsSound d → d.waiter ≡ at → d.signalled ≡ true → Cancels d
signalled-Cancels d waiting v e told = (_, next here (signal_cancel e told), refl, refl)
signalled-Cancels d closing v e told = (d, here, v.closing_waiter e, refl)
signalled-Cancels d gone v e told = (d, here, v.gone_waiter e, refl)

requested-Cancels : (d : Daemon) → IsSound d → d.requested ≡ true → Cancels d
requested-Cancels d v told = elim (v.requested told) [
  | inl pending ↦ (_, next here (shutdown_cancel pending), refl, refl)
  | inr done ↦ (d, here, done, refl)
]

told-Cancels : (d : Daemon) → IsSound d → (d.signalled ≡ true) ⊎ (d.requested ≡ true) → Cancels d
told-Cancels d v (inl told) = signalled-Cancels d d.waiter v refl told
told-Cancels d v (inr told) = requested-Cancels d v told

told_ends :
    (d : Daemon)
    → IsSound d
    → (d.signalled ≡ true) ⊎ (d.requested ≡ true)
    → d.loop ≡ accepting
    → (e : Daemon) × Reach d e × (e.loop ≡ ended (exited 0 ""))
told_ends d v told waits =
    let c = told-Cancels d v told in
    let p = cancelled_ends c.0 c.2 (c.3 ∙ waits) in (p.0, Reach-trans p.1 c.1, p.2)

-- A daemon that was told to stop, by a signal or a request `daemon/shutdown`, and that still waits for
-- connections, can always end with status 0; and once its context is done it can end in no other way.
pub stopping_ends :
    (d : Daemon)
    → Reach listening d
    → (d.signalled ≡ true) ⊎ (d.requested ≡ true)
    → d.loop ≡ accepting
    → ((e : Daemon) × Reach d e × (e.loop ≡ ended (exited 0 "")))
      × (d.cancelled ≡ true
          → (e : Daemon) (x : Exit) → Reach d e
          → e.loop ≡ ended x
          → x ≡ exited 0 "")
stopping_ends d reach told waits = (
  told_ends d (Reach-IsSound reach listening-IsSound) told waits,
  λ done e x r ended_.
      (Reach-IsStopping r (record { done = done; well = λ y h. absurd (ground arith) })).well x
        ended_,
)
