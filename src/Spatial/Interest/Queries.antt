-- ===== src/Spatial/Interest/Queries.antt =====
-- The four kinds of areas of a query, and `QueryChannelIds` (pkg/channeld/spatial.go).
use channeld.Base.{ℕ, Bool, true, not, ◌&&◌, Option, none, some, []}
use channeld.World.Types.{
  Env, Float, SpatialInfo, SpotsAoi, BoxAoi, SphereAoi, ConeAoi, SpatialInterestQuery,
}
use channeld.Spatial.{Grid}
use channeld.Spatial.Interest.{
  Geometry, Distances, QueryResult, found, query_error, query_panic, and_then, Area, flat,
  sum_of_products, dot_2d, normalize_2d, world_width, world_height, walk_area, query_spots,
}

-- How far a loop steps.
abbrev pub step_of : Geometry → (extent size : Float) → Float
step_of geo extent size = geo.half (geo.min_of extent size)

abbrev pub box_area : Geometry → Grid → (center extent : SpatialInfo) → Area
box_area geo g c e = record {
  from_x = geo.minus c.x e.x;
  to_x = geo.floats.plus c.x e.x;
  step_x = step_of geo e.x g.grid_width;
  from_z = geo.minus c.z e.z;
  to_z = geo.floats.plus c.z e.z;
  step_z = step_of geo e.z g.grid_height;
}

abbrev pub sphere_area : Geometry → Grid → SpatialInfo → Float → Area
sphere_area geo g c r = record {
  from_x = geo.minus c.x r;
  to_x = geo.floats.plus c.x r;
  step_x = step_of geo r g.grid_width;
  from_z = geo.minus c.z r;
  to_z = geo.floats.plus c.z r;
  step_z = step_of geo r g.grid_height;
}

-- A cone is cut off at the borders of the world.
abbrev pub cone_area : Geometry → Grid → SpatialInfo → Float → Area
cone_area geo g c r = record {
  from_x = geo.max_of g.world_offset_x (geo.minus c.x r);
  to_x = geo.min_of (geo.floats.plus g.world_offset_x (world_width geo g)) (geo.floats.plus c.x r);
  step_x = step_of geo r g.grid_width;
  from_z = geo.max_of g.world_offset_z (geo.minus c.z r);
  to_z = geo.min_of (geo.floats.plus g.world_offset_z (world_height geo g)) (geo.floats.plus c.z r);
  step_z = step_of geo r g.grid_height;
}

abbrev pub in_radius : Geometry → SpatialInfo → Float → SpatialInfo → Bool
in_radius geo c r spot =
    let dx = geo.minus spot.x c.x in
    let dz = geo.minus spot.z c.z in not (geo.lt (geo.mul r r) (sum_of_products geo dx dx dz dz))

abbrev pub in_cone : Geometry → SpatialInfo → (direction : SpatialInfo) → Float → SpatialInfo → Bool
in_cone geo c dir angle spot =
    let to_spot = normalize_2d geo (flat geo (geo.minus spot.x c.x) (geo.minus spot.z c.z)) in
    not (geo.lt (dot_2d geo to_spot dir) (geo.minus (geo.cos angle) geo.floats.zero_float))

unfoldable pub query_box : Geometry → Env → Grid → ℕ → BoxAoi → Distances → QueryResult
unfolding walk_area
query_box geo env g fuel box m = elim box.center [
  | none ↦ query_panic
  | some c ↦ elim box.extent [
    | none ↦ query_panic
    | some e ↦
        walk_area geo env g fuel (box_area geo g (flat geo c.x c.z) e) (flat geo c.x c.z)
          (λ spot. true) m
  ]
]

unfoldable pub query_sphere : Geometry → Env → Grid → ℕ → SphereAoi → Distances → QueryResult
unfolding walk_area
query_sphere geo env g fuel sphere m = elim sphere.center [
  | none ↦ query_panic
  | some c ↦
      let center = flat geo c.x c.z in
      walk_area geo env g fuel (sphere_area geo g center sphere.radius) center
        (in_radius geo center sphere.radius) m
]

unfoldable pub query_cone : Geometry → Env → Grid → ℕ → ConeAoi → Distances → QueryResult
unfolding walk_area
query_cone geo env g fuel cone m = elim cone.center [
  | none ↦ query_panic
  | some c ↦ elim cone.direction [
    | none ↦ query_panic
    | some d ↦
        let center = flat geo c.x c.z in
        let dir = normalize_2d geo (flat geo d.x d.z) in
        walk_area geo env g fuel (cone_area geo g center cone.radius) center
          (λ spot. in_radius geo center cone.radius spot && in_cone geo center dir cone.angle spot)
          m
  ]
]

-- The areas that the query has, one after another.
abbrev pub if_given {ℓ} :
    {A : Type ℓ} → Option A → (A → Distances → QueryResult) → Distances → QueryResult
if_given none f m = found m
if_given (some a) f m = f a m

abbrev pub spots_of : Geometry → Env → Grid → Option SpotsAoi → Distances
spots_of geo env g none = []
spots_of geo env g (some aoi) = query_spots geo env g aoi.spots aoi.dists []

-- `QueryChannelIds`.
unfoldable pub query_channel_ids :
    Geometry → Env → Grid → ℕ → Option SpatialInterestQuery → QueryResult
unfolding query_spots query_box query_sphere query_cone
query_channel_ids geo env g fuel none = query_error
query_channel_ids geo env g fuel (some q) =
    and_then
      (and_then (if_given q.box_aoi (query_box geo env g fuel) (spots_of geo env g q.spots_aoi))
        (if_given q.sphere_aoi (query_sphere geo env g fuel)))
      (if_given q.cone_aoi (query_cone geo env g fuel))
