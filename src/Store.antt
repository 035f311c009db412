-- ===== src/Store.antt =====
-- internal/store/store.go: the state of the store, and what its methods share. The methods are in
-- the modules below; each takes the store and returns it beside its result.
pub mod Log
pub mod Sessions
pub mod Workspaces
pub mod Edges
pub mod Sources
pub mod Graph
pub mod Lineages
pub mod Invariant
use the_score.Base.{ℕ, suc, String, Bool, true, false, List, [], ◌==◌, if◌then◌else◌, eqb, ℤ, pos}
use the_score.Base.Table.{Table}
use the_score.Model.{Time, Session, Workspace, Edge, Source, Event}

-- A `chan model.Event`: what is buffered in it, and whether it was closed.
pub record Channel : Type 0 where
  pub queue : List Event
  pub closed : Bool

-- The channel that `Subscribe` made for an id.
pub record Subscription : Type 0 where
  pub id : ℤ
  pub channel : Channel

-- The last three fields are the world around the struct: the channels by the id of their
-- subscription, the readings of `time.Now` that are still to come, and whether a goroutine has
-- panicked by a send on a closed channel.
pub record Store : Type 0 where
  pub sessions : Table Session
  pub workspaces : Table Workspace
  pub edges : Table Edge
  pub sources : Table Source
  pub events : List Event
  pub next_seq : ℤ
  pub subscribers : List ℤ
  pub next_sub_id : ℤ
  pub max_events : ℕ
  pub channels : List Subscription
  pub clock : ℕ → Time
  pub panicked : Bool

unfoldable pub new : (ℕ → Time) → Store
new clock = record {
  sessions = [];
  workspaces = [];
  edges = [];
  sources = [];
  events = [];
  next_seq = pos 0;
  subscribers = [];
  next_sub_id = pos 0;
  max_events = 5000;
  channels = [];
  clock = clock;
  panicked = false;
}

-- time.Now()
abbrev pub now : Store → Time
now s = s.clock 0

abbrev pub tick : Store → Store
tick s = record s { clock = λ n. s.clock (suc n) }

-- if text == "" { text = other }
abbrev pub or_else : String → String → String
or_else text other = if text == "" then other else text

-- if t.IsZero() { t = other }
abbrev pub or_time : Time → Time → Time
or_time t other = if eqb t 0 then other else t
