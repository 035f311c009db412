-- ===== src/Store/Lineages/Members.antt =====
-- What `Lineage` includes.
use the_score.Base.{
  true, ◌||◌, String, List, [], ◌∷◌, some, ◌==◌, ◌≡◌, refl, ◌↔◌, ◌⊎◌, inl, inr, arith, eq_iff, In,
  In-keep, In-append, keep, subst, Bool, Bool-cases, map, contains, contains_iff, ltb, ap, sym, ◌∙◌,
}
use mathlib.Core.List.{flat_map}
use the_score.Base.Table.{Table, get, values, In-values, IsKeyed}
use the_score.Base.Sort.{In-sort}
use the_score.Model.{Session, Edge, Workspace}
use the_score.Store.{Store}
use the_score.Store.Sessions.{get_session}
use the_score.Store.Invariant.{session_id, edge_id, workspace_id}
use the_score.Store.Lineages.{
  in_lineage, lineage_sessions, lineage_edges, lineage_workspaces, lineage,
}

-- A session that belongs to a lineage: all do to that of "", and else the root, what names it as its
-- root, and what names it as its parent.
abbrev pub IsRelated : String → Session → Type 0
IsRelated root x =
    (root ≡ "") ⊎ (x.id ≡ root) ⊎ (x.root_session_id ≡ root) ⊎ (x.parent_session_id ≡ root)

in_lineage_iff : (root : String) (x : Session) → (in_lineage root x ≡ true) ↔ IsRelated root x
unfolding in_lineage
in_lineage_iff root x = ground (
  arith,
  eq_iff root "",
  eq_iff x.id root,
  eq_iff x.root_session_id root,
  eq_iff x.parent_session_id root,
)

In-lineage_sessions :
    (root : String) (x : Session) (s : Store)
    → IsKeyed session_id s.sessions
    → In x (lineage_sessions root s) ↔ ((get_session x.id s ≡ some x) × IsRelated root x)
unfolding lineage_sessions get_session
In-lineage_sessions root x s keyed =
    let kept = In-keep (in_lineage root) x (values s.sessions) in
    let there = In-values session_id x s.sessions keyed in
    let related = in_lineage_iff root x in
    (
      λ m. let (v, w) = kept.0 m in (there.0 v, related.0 w),
      λ (g, w). kept.1 (there.1 g, related.1 w),
    )

-- `Lineage` includes exactly the stored sessions that are related to the root.
pub In-lineage :
    (root : String) (x : Session) (s : Store)
    → IsKeyed session_id s.sessions
    → In x (lineage root s).sessions ↔ ((get_session x.id s ≡ some x) × IsRelated root x)
unfolding lineage
In-lineage root x s keyed =
    let sorted = In-sort (λ a b. ltb a.started_at b.started_at) x (lineage_sessions root s) in
    let there = In-lineage_sessions root x s keyed in
    (λ m. there.0 (sorted.0 m), λ w. sorted.1 (there.1 w))

-- The sessions of a list that have an id.
In-ids :
    (id : String) (xs : List Session)
    → In id (map (λ (x : Session). x.id) xs) ↔ ((x : Session) × In x xs × (x.id ≡ id))
In-ids id [] = (λ m. absurd m, λ (x, m, e). absurd m)
In-ids id (y ∷ ys) = (
  λ m. elim m [
    | inl e ↦ (y, inl refl, sym e)
    | inr n ↦ let (x, i, e) = (In-ids id ys).0 n in (x, inr i, e)
  ],
  λ (x, i, e). elim i [
    | inl same ↦ inl (sym e ∙ ap (λ (z : Session). z.id) same)
    | inr j ↦ inr ((In-ids id ys).1 (x, j, e))
  ],
)

-- The test of the loop over the edges.
touches_iff :
    (root from to : String) (ids : List String)
    → ((root == "" || contains from ids || contains to ids) ≡ true)
      ↔ ((root ≡ "") ⊎ In from ids ⊎ In to ids)
touches_iff root from to ids =
    ground (arith, eq_iff root "", contains_iff from ids, contains_iff to ids)

-- An end of an edge is the id of a session of the list.
ends_iff :
    (from to : String) (xs : List Session)
    → (In from (map (λ (x : Session). x.id) xs) ⊎ In to (map (λ (x : Session). x.id) xs))
      ↔ ((x : Session) × In x xs × ((x.id ≡ from) ⊎ (x.id ≡ to)))
ends_iff from to xs = (
  λ m. elim m [
    | inl a ↦ let (x, i, e) = (In-ids from xs).0 a in (x, i, inl e)
    | inr b ↦ let (x, i, e) = (In-ids to xs).0 b in (x, i, inr e)
  ],
  λ (x, i, w). elim w [
    | inl e ↦ inl ((In-ids from xs).1 (x, i, e))
    | inr e ↦ inr ((In-ids to xs).1 (x, i, e))
  ],
)

-- `Lineage` includes exactly the stored edges from or to a session that it includes; for "" it
-- includes every stored edge.
pub In-lineage-edges :
    (root : String) (e : Edge) (s : Store)
    → IsKeyed edge_id s.edges
    → In e (lineage root s).edges ↔ (
        (get e.id s.edges ≡ some e)
        × ((root ≡ "")
            ⊎ ((x : Session) × In x (lineage root s).sessions × ((x.id ≡ e.from) ⊎ (x.id ≡ e.to)))))
unfolding lineage lineage_edges
In-lineage-edges root e s keyed =
    let xs = lineage_sessions root s in
    let ids = map (λ (x : Session). x.id) xs in
    let kept =
      In-keep (λ edge. root == "" || contains edge.from ids || contains edge.to ids) e
        (values s.edges) in
    let there = In-values edge_id e s.edges keyed in
    let touches = touches_iff root e.from e.to ids in
    let ends = ends_iff e.from e.to xs in
    let sorted = λ (x : Session). In-sort (λ a b. ltb a.started_at b.started_at) x xs in
    (
      λ m.
          let (v, w) = kept.0 m in
          (
            there.0 v,
            elim (touches.0 w) [
              | inl all ↦ inl all
              | inr some_end ↦ let (x, i, z) = ends.0 some_end in inr (x, (sorted x).1 i, z)
            ],
          ),
      λ (g, w). kept.1 (
        there.1 g,
        touches.1
            (elim w [ inl all ↦ inl all | inr (x, i, z) ↦ inr (ends.1 (x, (sorted x).0 i, z)) ]),
      ),
    )

In-flat_map :
    {A : Type 0} (f : A → List String) (id : String) (xs : List A)
    → In id (flat_map f xs) ↔ ((x : A) × In x xs × In id (f x))
unfolding flat_map
In-flat_map f id [] = (λ m. absurd m, λ (x, m, i). absurd m)
In-flat_map f id (y ∷ ys) =
    let split = In-append id (f y) (flat_map f ys) in
    let later = In-flat_map f id ys in
    (
      λ m. elim (split.0 m) [
        | inl here ↦ (y, inl refl, here)
        | inr there ↦ let (x, i, j) = later.0 there in (x, inr i, j)
      ],
      λ (x, i, j).
          split.1 (elim i [
            | inl e ↦ inl (subst (λ z. In id (f z)) e j)
            | inr k ↦ inr (later.1 (x, k, j))
          ]),
    )

-- The loop over the workspaces tests their keys.
In-values-keep :
    (p : String → Bool) (w : Workspace) (m : Table Workspace)
    → IsKeyed workspace_id m
    → In w (values (keep (λ entry. p entry.0) m)) ↔ (In w (values m) × (p w.id ≡ true))
unfolding values
In-values-keep p w [] keyed = ground arith
In-values-keep p w ((id, v) ∷ m) keyed =
    let later = In-values-keep p w m keyed.2 in
    let own : w ≡ v → p w.id ≡ p id = λ e. ap p (ap workspace_id e ∙ keyed.0) in
    elim (Bool-cases (p id)) [
      | inl wanted ↦ rw wanted (
        λ i. elim i [
          | inl e ↦ (inl e, own e ∙ wanted)
          | inr j ↦ ((inr (later.0 j).0), (later.0 j).1)
        ],
        λ (i, y). elim i [ inl e ↦ inl e | inr j ↦ inr (later.1 (j, y)) ],
      )
      | inr other ↦ rw other (
        λ i. ((inr (later.0 i).0), (later.0 i).1),
        λ (i, y). elim i [ inl e ↦ cc (own e, other, y) | inr j ↦ later.1 (j, y) ],
      )
    ]

-- `Lineage` includes exactly the stored workspaces that a session that it includes names.
pub In-lineage-workspaces :
    (root : String) (w : Workspace) (s : Store)
    → IsKeyed workspace_id s.workspaces
    → In w (lineage root s).workspaces ↔ (
        (get w.id s.workspaces ≡ some w)
        × ((x : Session) × In x (lineage root s).sessions × In w.id x.workspace_ids))
unfolding lineage lineage_workspaces
In-lineage-workspaces root w s keyed =
    let xs = lineage_sessions root s in
    let ids = flat_map (λ (x : Session). x.workspace_ids) xs in
    let kept = In-values-keep (λ id. contains id ids) w s.workspaces keyed in
    let there = In-values workspace_id w s.workspaces keyed in
    let named = In-flat_map (λ (x : Session). x.workspace_ids) w.id xs in
    let sorted = λ (x : Session). In-sort (λ a b. ltb a.started_at b.started_at) x xs in
    (
      λ m.
          let (v, c) = kept.0 m in
          let (x, i, n) = named.0 ((contains_iff w.id ids).0 c) in
          (there.0 v, (x, (sorted x).1 i, n)),
      λ (g, (x, i, n)).
          kept.1 (there.1 g, (contains_iff w.id ids).1 (named.1 (x, (sorted x).0 i, n))),
    )
