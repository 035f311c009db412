-- ===== src/Tests/Interleavings.antt =====
-- Runs of the goroutines of `scored` and of `score run`, of a stream, of a nest of commands and of a
-- daemon on its socket.
use Prim.Native.String.{count}
use the_score.Base.{
  ℕ, ◌+◌, ◌≤◌, ◌<◌, String, Bool, true, false, not, [], ◌∷◌, Option, none, some, ◌≡◌, ◌≢◌, ◌⊎◌, inr,
  refl, ap, arith, pos, is_some, List, In, ◌/◌, ◌%◌, ◌&&◌, eqb, if◌then◌else◌,
}
use the_score.Strings.{◌⧺◌}
use the_score.Store.{now}
use the_score.Store.Graph.{graph, set}
use the_score.Store.Sessions.{fill_session}
use the_score.Api.Reconcile.{listed}
use the_score.Api.Handle.{decoded, Method, read_method, handle, decode_params}
use the_score.Api.Handle.Refines.{graph-handle}
use the_score.Store.Log.{subscribe, cancel, backlog}
use the_score.Client.{fresh_client}
use the_score.Client.Subscribe.{subscribe_events, daemon_streaming}
use the_score.Client.Subscribe.Streams.{arrived, subscribe_events-daemon}
use the_score.Client.Calls.{reread_all}
use the_score.Model.{Event}
use the_score.Store.Log.Feed.{Feed, Reach, here, next, send_pending, receive, start}
use the_score.Tests.Logging.{logged}
use the_score.Daemon.{Exit, exited, scored_main, failure}
use the_score.Cli.Flags.{flag_text}
use the_score.Daemon.Stopping
use the_score.Daemon.Stopping.Laws.{stopping_sound, stopping_ends}
use the_score.Cli.Run.{Waited, finished, exit_error, verdict}
use the_score.Cli.Run.Nested.{Launch, nested, Linked, nested-Linked}
use the_score.Cli.Run.Signals
use the_score.Cli.Run.Signals.Safety.{signals_sound, judged_late}
use the_score.Base.Table.{get}
use the_score.Ipc.{Host, Network, Opened, opened, refused}
use the_score.Ipc.Meets.{Answers}
use the_score.Tests.{linux, codex, one_session, reported, note}
use the_score.Tests.Requests.{decoder, daemon}
use the_score.Tests.Commands.{wire}
use the_score.Tests.Runs.{failing, job}

-- A daemon that answered `daemon/shutdown`, and whose accept loop then ended.
abbrev asked_to_stop : Stopping.Daemon
asked_to_stop = record Stopping.listening { requested = true; pending = 1 }

asked : Stopping.Reach Stopping.listening asked_to_stop
asked = Stopping.next Stopping.here Stopping.request

abbrev exit : Exit
exit = scored_main none (failure true true "use of closed network connection" ∷ [])

abbrev stopped_well : Stopping.Daemon
stopped_well = record asked_to_stop {
  pending = 0;
  stopping = 1;
  cancelled = true;
  closed = true;
  loop = Stopping.ended exit;
}

ran : Stopping.Reach Stopping.listening stopped_well
ran =
    Stopping.next
      (Stopping.next
        (Stopping.next (Stopping.next asked (Stopping.shutdown_cancel (omega arith)))
          (Stopping.context_close refl))
        (Stopping.accept_closed "use of closed network connection" refl refl))
      (Stopping.examine true "use of closed network connection" refl)

stopping_sound_example :
    ((exit ≡ exited 0 "") × ((stopped_well.signalled ≡ true) ⊎ (stopped_well.requested ≡ true)))
    ⊎ ((message : String) × (exit ≡ exited 1 ("scored: " ⧺ message)))
stopping_sound_example = stopping_sound stopped_well exit ran refl

stopping_ends_example :
    ((e : Stopping.Daemon) × Stopping.Reach asked_to_stop e
      × (e.loop ≡ Stopping.ended (exited 0 "")))
    × (asked_to_stop.cancelled ≡ true
        → (e : Stopping.Daemon) (x : Exit) → Stopping.Reach asked_to_stop e
        → e.loop ≡ Stopping.ended x
        → x ≡ exited 0 "")
stopping_ends_example = stopping_ends asked_to_stop asked (inr refl) refl

-- A signal arrives while the command runs, is forwarded, and the command ends.
abbrev forwarded : Signals.Running
forwarded = record Signals.begun {
  ended = some finished;
  watcher = Signals.waiting_done;
  main = Signals.judged finished true;
  done = true;
  stopped = true;
  arrived = 1;
  sent = 1;
}

forwarding_run : Signals.Reach Signals.begun forwarded
forwarding_run =
    Signals.next
      (Signals.next
        (Signals.next
          (Signals.next
            (Signals.next
              (Signals.next
                (Signals.next (Signals.next Signals.here Signals.signal)
                  (Signals.take_signal refl refl))
                (Signals.store_stopped refl))
              (Signals.send_signal refl))
            (Signals.end_command finished refl))
          (Signals.return_wait finished refl refl))
        (Signals.close_done finished refl))
      (Signals.load_stopped finished refl)

signals_sound_example :
    (forwarded.sent ≤ 1)
    × (forwarded.killed ≡ true → (0 < forwarded.arrived) × (forwarded.sent ≡ 1))
    × ((w : Waited) (b : Bool) (command : String)
        → forwarded.main ≡ Signals.judged w b
        → (forwarded.ended ≡ some w)
          × (b ≡ true → 0 < forwarded.arrived)
          × (forwarded.arrived ≡ 0 → verdict command b w ≡ verdict command false w))
signals_sound_example = signals_sound forwarded forwarding_run

judged_late_example :
    (r : Signals.Running) × (s : Signals.Running) × Signals.Reach Signals.begun r
    × (r.ended ≡ some (exit_error (pos 3) "exit status 3"))
    × (r.arrived ≡ 0)
    × Signals.Reach r s
    × (s.main ≡ Signals.judged (exit_error (pos 3) "exit status 3") true)
judged_late_example = judged_late (exit_error (pos 3) "exit status 3")

-- Two commands inside one another, below the command of `job`.
abbrev inner : Launch
inner = record {
  machine = failing;
  environ = ("SCORE_SESSION_ID", "stale") ∷ [];
  workspace = "/work";
  parsed = record { values = []; rest = "sh" ∷ [] };
}

job-rooted : job.root ≢ ""
job-rooted e = omega (arith, ap count e)

nested-Linked_example : Linked job (nested job (inner ∷ inner ∷ []))
unfolding flag_text get
nested-Linked_example =
    nested-Linked job (inner ∷ inner ∷ []) job-rooted ((refl, refl), ((refl, refl), tt))

-- Of the two events in the log the first was received and the second is in the buffer.
abbrev sixth : Event
sixth = record note { seq = pos 6 }

abbrev seventh : Event
seventh = record note { seq = pos 7 }

abbrev half : Feed
half = record (start (pos 0) logged) {
  pending = [];
  channel = record { queue = seventh ∷ []; closed = false };
  received = sixth ∷ [];
}

half_reached : Reach (start (pos 0) logged) half
unfolding backlog
half_reached =
    next
      (next (next here (send_pending sixth (seventh ∷ []) refl refl refl)) (receive sixth [] refl))
      (send_pending seventh [] refl refl refl)

subscribe_events-daemon_example :
    let c =
      subscribe_events wire
        (daemon_streaming wire daemon linux decoder (listed []) (λ s. s) (arrived half))
        (pos 0)
        fresh_client
        logged in
    (c.client.next ≡ 1 + 1)
    × ((c.events ≡ decoded (reread_all wire half.received))
        × ((e x : Event)
            → In e (backlog (pos 0) logged)
            → decoded e ≡ decoded x
            → ((es : List Event) × (c.events ≡ decoded es) × In x es)
              ⊎ In e half.channel.queue
              ⊎ In e half.pending)
        × (c.store ≡ cancel (subscribe logged).1 (subscribe logged).0))
unfolding decode_params
subscribe_events-daemon_example =
    subscribe_events-daemon daemon linux decoder (listed []) wire (λ s. s) (pos 0) "{}" fresh_client
      logged refl (decoded (pos 0)) half refl half_reached

not_list : read_method "observations/upsertSession" ≢ some Method.list_sessions
unfolding read_method
not_list e = ground arith

graph-handle_example :
    graph
      (handle daemon linux decoder "observations/upsertSession"
        (listed (codex ∷ []))
        "{session}"
        one_session).0
    ≡ record (graph one_session) {
      sessions = set "s1" (fill_session (now one_session) reported) (graph one_session).sessions;
    }
unfolding decode_params read_method fill_session
graph-handle_example =
    graph-handle daemon linux decoder "observations/upsertSession" (listed (codex ∷ [])) "{session}"
      one_session not_list

abbrev dialled : Option ℕ → Opened ℕ
dialled none = refused "connection refused"
dialled (some l) = opened l

-- The listeners at the one address of a network, and the mode of the file there.
record Line : Type 0 where
  socket : Option ℕ
  pipe : Option ℕ
  mode : ℕ

abbrev permitted : ℕ → Opened ℕ → Opened ℕ
permitted mode o = if eqb (mode / 128 % 2) 1 then o else refused "permission denied"

-- A listener has a number.
abbrev one_address : Network Line ℕ ℕ
one_address = record {
  remove = λ address w. record w { socket = none };
  chmod = λ address mode w. record w { mode = mode };
  listen_unix = λ address w. (record w { socket = some 5; mode = 493 }, opened 5);
  listen_pipe = λ address w. (record w { pipe = some 5 }, opened 5);
  dial_unix = λ address timeout w. (w, permitted w.mode (dialled w.socket));
  dial_pipe = λ address timeout w. (w, dialled w.pipe);
}

abbrev is_free : String → Line → Bool
is_free address w = not (is_some w.socket) && not (is_some w.pipe)

abbrev Found : ℕ → Option ℕ → Opened ℕ → Type 0
Found =
    Answers one_address (λ address w. w.socket) (λ address w. w.pipe) (λ address w. w.mode) is_free
      (λ l c. l ≡ c)

abbrev unix_host : Host
unix_host = record {
  get_env = λ name. "";
  windows = false;
  temp_dir = "/tmp";
  uid = pos 501;
  join = λ dir name. dir ⧺ "/" ⧺ name;
}

-- Another daemon, number 3, still listens there.
abbrev taken : Line
taken = record { socket = some 3; pipe = none; mode = 384 }
