-- ===== src/Store/Edges.antt =====
-- internal/store/store.go: edges.
pub mod Laws
use the_score.Base.{
  String, Bool, true, false, not, ◌&&◌, ◌||◌, List, Option, ◌==◌, if◌then◌else◌, is_some, ltb,
}
use the_score.Base.Sort.{sort}
use the_score.Base.Table.{get, put, remove, values}
use the_score.Model.{Time, Edge, Event, zero_event}
use the_score.Model.Confidence
use the_score.Strings.{◌⧺◌}
use the_score.Store.{Store, now, tick, or_else, or_time}
use the_score.Store.Log.{append_event}

-- The defaults of `UpsertEdge`.
unfoldable pub fill_edge : Time → Edge → Edge
fill_edge time edge = record edge {
  id = or_else edge.id (edge.type ⧺ ":" ⧺ edge.from ⧺ "->" ⧺ edge.to);
  source = or_else edge.source "native";
  confidence = or_else edge.confidence Confidence.unknown;
  observed_at = or_time edge.observed_at time;
}

unfoldable pub edge_event : Bool → Edge → Event
edge_event existed edge = record zero_event {
  type =
      if not existed && (edge.type == "spawned_by" || edge.type == "delegated_by")
      then "child.spawned"
      else "graph.edge_upserted";
  edge_id = edge.id;
  summary = edge.type ⧺ " " ⧺ edge.from ⧺ " -> " ⧺ edge.to;
  source = edge.source;
}

unfoldable pub upsert_edge : Edge → Store → Store × Edge
upsert_edge edge s =
    let filled = fill_edge (now s) edge in
    let existed = is_some (get filled.id s.edges) in
    let stored = record (tick s) { edges = put filled.id filled s.edges } in
    ((append_event (edge_event existed filled) stored).0, filled)

unfoldable pub list_edges : Store → List Edge
list_edges s = sort (λ a b. ltb a.observed_at b.observed_at) (values s.edges)

unfoldable pub edge_removed_event : String → Event
edge_removed_event id = record zero_event {
  type = "graph.edge_removed";
  edge_id = id;
  summary = "edge removed";
  source = "native";
}

unfoldable pub remove_edge : String → Store → Store × Bool
remove_edge id s =
    if is_some (get id s.edges)
    then ((append_event (edge_removed_event id) (record s { edges = remove id s.edges })).0, true)
    else (s, false)
