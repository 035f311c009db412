-- ===== src/Store/Graph.antt =====
-- internal/store/store.go: what a store promises its clients, as a specification of its own: four finite
-- maps, without the order in which they were filled, the event log and the clock.
pub mod Refines
use the_score.Base.{String, Option, none, some, ◌==◌, if◌then◌else◌}
use the_score.Model.{Session, Workspace, Edge, Source}
use the_score.Base.Table.{get}
use the_score.Store.{Store}

pub record Graph : Type 0 where
  pub sessions : String → Option Session
  pub workspaces : String → Option Workspace
  pub edges : String → Option Edge
  pub sources : String → Option Source

-- The graph that a store holds.
abbrev pub graph : Store → Graph
graph s = record {
  sessions = λ id. get id s.sessions;
  workspaces = λ id. get id s.workspaces;
  edges = λ id. get id s.edges;
  sources = λ id. get id s.sources;
}

-- A map with one entry set, and with one entry gone.
abbrev pub set : {V : Type 0} → String → V → (String → Option V) → String → Option V
set k v f id = if k == id then some v else f id

abbrev pub clear : {V : Type 0} → String → (String → Option V) → String → Option V
clear k f id = if k == id then none else f id

-- The changes that a graph knows.
pub data Change : Type 0 where
  keep : Change
  put_session : Session → Change
  drop_session : String → Change
  put_workspace : Workspace → Change
  put_edge : Edge → Change
  drop_edge : String → Change
  put_source : Source → Change

abbrev pub change : Change → Graph → Graph
change keep g = g
change (put_session x) g = record g { sessions = set x.id x g.sessions }
change (drop_session id) g = record g { sessions = clear id g.sessions }
change (put_workspace w) g = record g { workspaces = set w.id w g.workspaces }
change (put_edge e) g = record g { edges = set e.id e g.edges }
change (drop_edge id) g = record g { edges = clear id g.edges }
change (put_source x) g = record g { sources = set x.id x g.sources }
