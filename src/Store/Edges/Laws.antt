-- ===== src/Store/Edges/Laws.antt =====
-- What the methods on edges do to the graph.
use the_score.Base.{String, arith, is_some}
use the_score.Base.Table.{get, put, remove, remove_of_none}
use the_score.Model.{Edge}
use the_score.Store.{Store, now, tick}
use the_score.Store.Log.Frame.{SameGraph, append_event-SameGraph}
use the_score.Store.Edges.{fill_edge, edge_event, upsert_edge, edge_removed_event, remove_edge}

-- The graph after `UpsertEdge`: one edge more, and the rest as it was.
pub graph-upsert_edge :
    (edge : Edge) (s : Store)
    → SameGraph
        (record s { edges = put (fill_edge (now s) edge).id (fill_edge (now s) edge) s.edges })
        (upsert_edge edge s).0
unfolding upsert_edge
graph-upsert_edge edge s =
    let filled = fill_edge (now s) edge in
    let same =
      append_event-SameGraph (edge_event (is_some (get filled.id s.edges)) filled)
        (record (tick s) { edges = put filled.id filled s.edges }) in
    record {
      sessions = same.sessions;
      workspaces = same.workspaces;
      edges = same.edges;
      sources = same.sources;
    }

-- The graph after `RemoveEdge`: the edge is gone, and the rest as it was.
pub graph-remove_edge :
    (id : String) (s : Store)
    → SameGraph (record s { edges = remove id s.edges }) (remove_edge id s).0
unfolding remove_edge
graph-remove_edge id s =
    let same =
      append_event-SameGraph (edge_removed_event id) (record s { edges = remove id s.edges }) in
    ground (arith, same, remove_of_none id s.edges)
