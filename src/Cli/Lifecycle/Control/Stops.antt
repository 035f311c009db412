-- ===== src/Cli/Lifecycle/Control/Stops.antt =====
-- cmd/score/lifecycle.go: the calls that `score stop` makes, and what it reports.
use the_score.Base.{Bool, true, false, String, Option, none, some, ◌≡◌, ◌≢◌, ℤ, In, ◌↔◌, ◌⊎◌}
use the_score.Cli.Lifecycle.Control.{
  try_remove, signal, kill, Report, printed, died, Stopping, run_stop,
}

text_of : Report → String
text_of (printed text) = text
text_of (died text) = text

-- The daemon was told to stop: it took the request, or it was sent the signal.
abbrev pub IsTold : Stopping → Type 0
IsTold s = (s.used_api ≡ true) ⊎ ((s.used_api ≡ false) × (s.pid ≢ none) × (s.signal_error ≡ none))

abbrev pub Reports : Stopping → Type 0
Reports s =
    (((run_stop s).report ≡ printed "scored stopped") ↔ IsTold s)
    × ((message : String)
        → ((run_stop s).report ≡ died message)
          ↔ ((s.used_api ≡ false) × (s.pid ≢ none) × (s.signal_error ≡ some message)))

abbrev pub Calls : Stopping → Type 0
Calls s =
    (In (try_remove s.pid_path) (run_stop s).effects ↔ IsTold s)
    × ((p : ℤ)
        → In (kill p) (run_stop s).effects
          ↔ (IsTold s × (s.waited ≢ none) × (s.pid_later ≡ some p)))
    × ((p : ℤ) → In (signal p) (run_stop s).effects ↔ ((s.used_api ≡ false) × (s.pid ≡ some p)))

module _ (path : String) where
  stopping : Bool → Option ℤ → Option String → Option String → Option ℤ → Stopping
  stopping used_api pid signal_error waited pid_later = record {
    used_api = used_api;
    pid = pid;
    signal_error = signal_error;
    waited = waited;
    pid_later = pid_later;
    pid_path = path;
  }
