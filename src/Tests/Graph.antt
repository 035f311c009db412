-- ===== src/Tests/Graph.antt =====
-- Runs of the methods on sessions, workspaces and edges.
use the_score.Base.{false, [], ◌∷◌, some, ◌≡◌, ◌↔◌, In}
use the_score.Base.Sort.{Ordered}
use the_score.Model.{Workspace, zero_workspace}
use the_score.Store.Sessions.{SessionFilter, get_session, list_sessions}
use the_score.Store.Sessions.Listing.{IsWanted, In-list_sessions, Precedes, list_sessions-Ordered}
use the_score.Store.{Store}
use the_score.Model.{Edge, zero_edge}
use the_score.Store.Edges.{upsert_edge}
use the_score.Store.Invariant.{IsValid, upsert_edge-IsValid}
use the_score.Store.Lineages.{lineage}
use the_score.Store.Lineages.Whole.{IsLineage, lineage-IsLineage}
use the_score.Tests.{one_session, one_session-IsValid, stored}

abbrev active : SessionFilter
active = record { all = false; status = "blocked" ∷ []; workspace = ""; source = "" }

In-list_sessions_example :
    In stored (list_sessions active one_session)
    ↔ ((get_session stored.id one_session ≡ some stored) × IsWanted active stored)
In-list_sessions_example = In-list_sessions active stored one_session one_session-IsValid.sessions

list_sessions-Ordered_example : Ordered Precedes (list_sessions active one_session)
list_sessions-Ordered_example = list_sessions-Ordered active one_session

abbrev checkout : Workspace
checkout = record zero_workspace { path = "/work" }

abbrev spawned : Edge
spawned = record zero_edge { id = "e1"; from = "s2"; to = "s1"; type = "spawned_by" }

abbrev linked : Store
linked = (upsert_edge spawned one_session).0

linked-IsValid : IsValid linked
linked-IsValid = upsert_edge-IsValid one_session one_session-IsValid spawned

lineage-IsLineage_example : IsLineage "s1" linked (lineage "s1" linked)
lineage-IsLineage_example = lineage-IsLineage "s1" linked linked-IsValid
