-- ===== src/Api/Handle/Accepts.antt =====
-- internal/api/handler.go: the reports that `Handle` answers with a result.
use the_score.Base.{false, String, ◌==◌, ◌≡◌, ◌≢◌, refl, arith, eq_iff}
use the_score.Model.{Session, Workspace, Edge, zero_session, zero_workspace, zero_edge}
use the_score.Runtime.{Os}
use the_score.Store.{Store}
use the_score.Store.Sessions.{upsert_session}
use the_score.Store.Workspaces.{upsert_workspace}
use the_score.Store.Edges.{upsert_edge}
use the_score.Api.Reconcile.{Listing}
use the_score.Api.Handle.{
  decoded, Json, Handler, result, session, workspace, edge, healthy, decode_params,
  handle_upsert_session, handle_upsert_workspace, handle_upsert_edge, handle_method, handle_read,
  handle, read_method, Reply,
}

module _ (handler : Handler) (os : Os) (json : Json) (listing : Listing) where
  -- A request that is answered with a result, whatever the store.
  abbrev pub Accepts : (method text : String) → Type 0
  Accepts method text =
      (s : Store)
      → (reply : Reply) × ((handle handler os json method listing text s).1 ≡ result reply)

  pub health-Accepts : Accepts "health/check" ""
  unfolding handle handle_read handle_method read_method
  health-Accepts s = (healthy, refl)

  pub upsert_session-Accepts :
      (text : String) (given : Session)
      → decode_params zero_session json.session text ≡ decoded given
      → given.id ≢ ""
      → Accepts "observations/upsertSession" text
  unfolding handle handle_read handle_method read_method handle_upsert_session
  upsert_session-Accepts text given read named s =
      let named' : (given.id == "") ≡ false = ground (arith, eq_iff given.id "") in
      (session (upsert_session given s).1, rw read (rw named' refl))

  pub upsert_workspace-Accepts :
      (text : String) (given : Workspace)
      → decode_params zero_workspace json.workspace text ≡ decoded given
      → given.id ≢ ""
      → Accepts "observations/upsertWorkspace" text
  unfolding handle handle_read handle_method read_method handle_upsert_workspace
  upsert_workspace-Accepts text given read named s =
      let named' : (given.id == "") ≡ false = ground (arith, eq_iff given.id "") in
      (workspace (upsert_workspace given s).1, rw read (rw named' refl))

  pub upsert_edge-Accepts :
      (text : String) (given : Edge)
      → decode_params zero_edge json.edge text ≡ decoded given
      → given.from ≢ ""
      → given.to ≢ ""
      → given.type ≢ ""
      → Accepts "observations/upsertEdge" text
  unfolding handle handle_read handle_method read_method handle_upsert_edge
  upsert_edge-Accepts text given read from to type s =
      let from' : (given.from == "") ≡ false = ground (arith, eq_iff given.from "") in
      let to' : (given.to == "") ≡ false = ground (arith, eq_iff given.to "") in
      let type' : (given.type == "") ≡ false = ground (arith, eq_iff given.type "") in
      (edge (upsert_edge given s).1, rw read (rw (from', to', type') refl))
