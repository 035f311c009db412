-- ===== src/Tests.antt =====
-- The theorems at work on small stores. Here is the data of the runs: a daemon on Linux, one agent in
-- the process table, and one session that a client reported.
pub mod Reconciling
pub mod Logging
pub mod Graph
pub mod Requests
pub mod Connections
pub mod Commands
pub mod Lifecycles
pub mod Runs
pub mod Interleavings
pub mod Parsing
use Prim.Native.String.{count}
use the_score.Base.{
  ℕ, ◌+◌, String, true, false, List, [], ◌∷◌, some, none, ◌≡◌, ◌≢◌, refl, arith, ap, pos,
}
use the_score.Model.{Session, Process, Event, zero_session, zero_process, zero_event}
use the_score.Runtime.{Os}
use the_score.Store.{Store, new, now}
use the_score.Store.Sessions.{upsert_session, fill_session, get_session}
use the_score.Store.Sessions.Laws.{get_session-upsert_session}
use the_score.Store.Invariant.{IsValid, new-IsValid, upsert_session-IsValid}

abbrev pub linux : Os
linux = record {
  windows = false;
  exists = λ path. false;
  base_windows = λ path. path;
  lower = λ c. c;
  lookup_cwd = λ pid. none;
}

abbrev pub seconds : ℕ → ℕ
seconds n = 1000 + n

abbrev pub codex : Process
codex = record zero_process {
  id = "process:42";
  pid = pos 42;
  ppid = pos 1;
  command = "/usr/bin/codex";
  args = "codex resume";
}

abbrev pub reported : Session
reported = record zero_session { id = "s1"; title = "review"; status = "blocked" }

abbrev pub fresh : Store
fresh = new seconds

-- The store after the client's report, and what it holds.
abbrev pub stored : Session
stored = fill_session (now fresh) reported

abbrev pub one_session : Store
one_session = (upsert_session reported fresh).0

pub one_session-IsValid : IsValid one_session
one_session-IsValid = upsert_session-IsValid fresh (new-IsValid seconds) reported

pub get_session-one_session : get_session "s1" one_session ≡ some stored
get_session-one_session = get_session-upsert_session reported "s1" fresh

pub reported_named : reported.id ≢ ""
reported_named e = omega (arith, ap count e)

abbrev pub note : Event
note = record zero_event { type = "note" }
