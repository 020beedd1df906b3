-- ===== src/Spatial/Interest.antt =====
-- Which spatial channels an area of interest covers: `QueryChannelIds` of
-- `StaticGrid2DSpatialController` (pkg/channeld/spatial.go and pkg/common/common.go).
pub mod Queries
pub mod Loops
pub mod Covered
pub mod Walked
pub mod Found
pub mod Complete
pub mod Update
pub mod Frame
pub mod Asking
pub mod Queued
pub mod Missing
use channeld.Base.{
  ℕ, zero, suc, Bool, true, false, not, ◌&&◌, Option, none, some, List, [], ◌∷◌, if◌then◌else◌,
  insert,
}
use channeld.World.Types.{
  Env, Float, SpatialInfo, SpotsAoi, BoxAoi, SphereAoi, ConeAoi, SpatialInterestQuery,
}
use channeld.Spatial.{Floats, Grid, get_channel_id}

-- The operations of the processor and of `math` that the queries use beside those of the grid.
pub record Geometry : Type 0 where
  pub floats : Floats
  pub minus : Float → Float → Float
  pub mul : Float → Float → Float
  pub div : Float → Float → Float
  -- `x * 0.5`.
  pub half : Float → Float
  pub sqrt : Float → Float
  pub cos : Float → Float
  pub min_of : Float → Float → Float
  pub max_of : Float → Float → Float
  pub le : Float → Float → Bool
  pub lt : Float → Float → Bool
  -- `uint(math.Ceil(x))`.
  pub ceil : Float → ℕ

-- The channels found, with their distances.
abbrev pub Distances : Type 0
Distances = List (ℕ × ℕ)

-- `endless` stands for loops that have not ended within the fuel.
pub data QueryResult : Type 0 where
  found : Distances → QueryResult
  query_error query_panic endless : QueryResult

abbrev pub and_then : QueryResult → (Distances → QueryResult) → QueryResult
and_then (found m) f = f m
and_then query_error f = query_error
and_then query_panic f = query_panic
and_then endless f = endless

-- `for x := start; x <= limit; x += step`. The body may not end either.
unfoldable pub walk :
    Geometry
    → ℕ
    → (step limit x : Float) → (Float → Distances → Option Distances)
    → Distances
    → Option Distances
walk geo zero step limit x body m = none
walk geo (suc fuel) step limit x body m = elim (geo.le x limit) [
  | true ↦ elim (body x m) [
    | none ↦ none
    | some m' ↦ walk geo fuel step limit (geo.floats.plus x step) body m'
  ]
  | false ↦ some m
]

-- `Dist2D`, `Dot2D` and `Normalize2D`.
abbrev pub sum_of_products : Geometry → (a b c d : Float) → Float
sum_of_products geo a b c d = geo.floats.plus (geo.mul a b) (geo.mul c d)

abbrev pub dist_2d : Geometry → SpatialInfo → SpatialInfo → Float
dist_2d geo a b =
    let dx = geo.minus a.x b.x in
    let dz = geo.minus a.z b.z in geo.sqrt (sum_of_products geo dx dx dz dz)

abbrev pub dot_2d : Geometry → SpatialInfo → SpatialInfo → Float
dot_2d geo a b = sum_of_products geo a.x b.x a.z b.z

abbrev pub normalize_2d : Geometry → SpatialInfo → SpatialInfo
normalize_2d geo a =
    let mag = geo.sqrt (sum_of_products geo a.x a.x a.z a.z) in
    record a { x = geo.div a.x mag; z = geo.div a.z mag }

-- `WorldWidth`, `WorldHeight` and `GridSize`.
abbrev pub world_width : Geometry → Grid → Float
world_width geo g = geo.floats.times g.grid_cols g.grid_width

abbrev pub world_height : Geometry → Grid → Float
world_height geo g = geo.floats.times g.grid_rows g.grid_height

abbrev pub grid_size : Geometry → Grid → Float
grid_size geo g =
    if geo.floats.is_positive g.grid_width && geo.floats.is_positive g.grid_height
    then geo.sqrt (sum_of_products geo g.grid_width g.grid_width g.grid_height g.grid_height)
    else geo.floats.zero_float

abbrev pub flat : Geometry → (x z : Float) → SpatialInfo
flat geo x z = record { x = x; y = geo.floats.zero_float; z = z }

-- A point of the area; those outside the grid are left out.
abbrev pub add_spot :
    Geometry → Env → Grid → SpatialInfo → (spot : SpatialInfo) → Distances → Distances
add_spot geo env g center spot m = elim (get_channel_id geo.floats env g spot) [
  | none ↦ m
  | some id ↦ insert id (geo.ceil (geo.div (dist_2d geo center spot) (grid_size geo g))) m
]

-- The bounds and the steps of the two loops over an area.
pub record Area : Type 0 where
  pub from_x : Float
  pub to_x : Float
  pub step_x : Float
  pub from_z : Float
  pub to_z : Float
  pub step_z : Float

abbrev pub row_body :
    Geometry
    → Env
    → Grid
    → SpatialInfo
    → (SpatialInfo → Bool)
    → (z x : Float) → Distances
    → Option Distances
row_body geo env g center covers z x m =
    some (if covers (flat geo x z) then add_spot geo env g center (flat geo x z) m else m)

-- The inner loop, over the points of a row that the area covers.
unfoldable pub walk_row :
    Geometry
    → Env
    → Grid
    → ℕ
    → Area
    → SpatialInfo
    → (SpatialInfo → Bool)
    → Float
    → Distances
    → Option Distances
unfolding walk get_channel_id insert
walk_row geo env g fuel a center covers z m =
    walk geo fuel a.step_x a.to_x a.from_x (row_body geo env g center covers z) m

abbrev pub as_result : Option Distances → QueryResult
as_result none = endless
as_result (some m) = found m

-- The channel of the center is at the distance 0.
abbrev pub add_center : Geometry → Env → Grid → SpatialInfo → Distances → QueryResult
add_center geo env g center m = elim (get_channel_id geo.floats env g center) [
  | none ↦ query_error
  | some id ↦ found (insert id 0 m)
]

-- The two loops, and the center.
unfoldable pub walk_area :
    Geometry → Env → Grid → ℕ → Area → SpatialInfo → (SpatialInfo → Bool) → Distances → QueryResult
unfolding walk_row walk insert get_channel_id
walk_area geo env g fuel a center covers m =
    if geo.le a.step_z geo.floats.zero_float
    then query_error
    else if geo.le a.step_x geo.floats.zero_float
    then query_error
    else and_then
        (as_result
          (walk geo fuel a.step_z a.to_z a.from_z (walk_row geo env g fuel a center covers) m))
        (add_center geo env g center)

unfoldable pub query_spots :
    Geometry → Env → Grid → List SpatialInfo → (dists : List ℕ) → Distances → Distances
unfolding get_channel_id insert
query_spots geo env g [] dists m = m
query_spots geo env g (spot ∷ spots) [] m =
    query_spots geo env g spots []
      (elim (get_channel_id geo.floats env g spot) [ none ↦ m | some id ↦ insert id 0 m ])
query_spots geo env g (spot ∷ spots) (d ∷ dists) m =
    query_spots geo env g spots dists
      (elim (get_channel_id geo.floats env g spot) [ none ↦ m | some id ↦ insert id d m ])
