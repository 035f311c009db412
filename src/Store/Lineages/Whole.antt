-- ===== src/Store/Lineages/Whole.antt =====
-- The parts of `Lineage` together, in a store that keeps its invariant.
use the_score.Base.{String, some, ◌≡◌, ◌↔◌, ◌⊎◌, In}
use the_score.Base.Table.{get}
use the_score.Model.{Session, Workspace, Edge, Lineage}
use the_score.Store.{Store}
use the_score.Store.Sessions.{get_session}
use the_score.Store.Invariant.{IsValid}
use the_score.Store.Lineages.{lineage}
use the_score.Store.Lineages.Members.{
  IsRelated, In-lineage, In-lineage-edges, In-lineage-workspaces,
}

-- What belongs to the lineage of a root: the stored sessions that are related to it, the stored edges
-- at one of them, or all of them for "", and the stored workspaces that one of them names.
pub record IsLineage (root : String) (s : Store) (l : Lineage) : Type 0 where
  pub sessions :
      (x : Session) → In x l.sessions ↔ ((get_session x.id s ≡ some x) × IsRelated root x)
  pub edges :
      (e : Edge)
      → In e l.edges ↔ (
          (get e.id s.edges ≡ some e)
          × ((root ≡ "") ⊎ ((x : Session) × In x l.sessions × ((x.id ≡ e.from) ⊎ (x.id ≡ e.to)))))
  pub workspaces :
      (w : Workspace)
      → In w l.workspaces ↔ (
          (get w.id s.workspaces ≡ some w)
          × ((x : Session) × In x l.sessions × In w.id x.workspace_ids))

-- `Lineage` includes exactly what belongs to the lineage of its root, in every valid store.
pub lineage-IsLineage : (root : String) (s : Store) → IsValid s → IsLineage root s (lineage root s)
lineage-IsLineage root s v = record {
  sessions = λ x. In-lineage root x s v.sessions;
  edges = λ e. In-lineage-edges root e s v.edges;
  workspaces = λ w. In-lineage-workspaces root w s v.workspaces;
}
