-- ===== src/Spatial/Interest/Missing.antt =====
-- A message about the interest of a client whose area has no center (pkg/channeld/message_spatial.go and
-- pkg/channeld/spatial.go).
use channeld.Base.{ℕ, ◌≡◌, refl, ap, true, none, some}
use channeld.World.Types.{
  World, Env, MessageContext, ConnRef, update_spatial_interest, SpatialInterestQuery, SphereAoi,
}
use channeld.World.Access.{get_connection}
use channeld.Spatial.{Grid}
use channeld.Spatial.Interest.{Geometry, query_panic}
use channeld.Spatial.Interest.Queries.{query_channel_ids, query_sphere}
use channeld.Spatial.Interest.Update.{handle_update_interest, update_panic, after_query}

query_channel_ids-panic :
    (geo : Geometry) (env : Env) (g : Grid) (fuel : ℕ) (q : SpatialInterestQuery) (s : SphereAoi)
    → q.box_aoi ≡ none
    → q.sphere_aoi ≡ some s
    → s.center ≡ none
    → query_channel_ids geo env g fuel (some q) ≡ query_panic
unfolding query_channel_ids query_sphere
query_channel_ids-panic geo env g fuel q s no_box sphere missing =
    rw (no_box, sphere) (rw missing refl)

-- A message that names a sphere without a center makes the server panic, where there is a spatial
-- controller and the client is connected.
handle_update_interest-panics :
    (geo : Geometry) (env : Env) (g : Grid) (fuel : ℕ) (w : World) (ctx : MessageContext)
    (conn_id : ℕ) (client : ConnRef) (q : SpatialInterestQuery) (s : SphereAoi)
    → ctx.msg ≡ update_spatial_interest conn_id (some q)
    → env.has_spatial_controller ≡ true
    → get_connection w conn_id ≡ some client
    → q.box_aoi ≡ none
    → q.sphere_aoi ≡ some s
    → s.center ≡ none
    → handle_update_interest geo env g fuel w ctx ≡ update_panic
unfolding handle_update_interest
handle_update_interest-panics geo env g fuel w ctx conn_id client q s named controlled connected
      no_box sphere missing =
    rw (named, controlled, connected)
      (ap (after_query env w ctx client conn_id)
        (query_channel_ids-panic geo env g fuel q s no_box sphere missing))
