-- ===== src/Spatial/Interest/Covered.antt =====
-- Which points the areas of a query cover (`QueryChannelIds` of pkg/channeld/spatial.go), said without
-- the loops.
use channeld.Base.{ℕ, zero, suc, ◌≡◌, true, some, List, [], ◌∷◌, ◌⊎◌, false}
use channeld.World.Types.{
  Float, SpatialInfo, SpotsAoi, BoxAoi, SphereAoi, ConeAoi, SpatialInterestQuery,
}
use channeld.Spatial.{Grid}
use channeld.Spatial.Interest.{Geometry, flat, normalize_2d, dot_2d}

-- The point after `n` steps.
abbrev pub point : Geometry → (from step : Float) → ℕ → Float
point geo from step zero = from
point geo from step (suc n) = point geo (geo.floats.plus from step) step n

-- A point that a loop with these bounds reaches by its steps.
abbrev pub Between : Geometry → (from to step x : Float) → Type 0
Between geo from to step x = (n : ℕ) × (point geo from step n ≡ x) × (geo.le x to ≡ true)

abbrev pub Among : SpatialInfo → List SpatialInfo → Type 0
Among info [] = ⊥
Among info (spot ∷ spots) = (info ≡ spot) ⊎ Among info spots

-- What the areas of a query are. The first disjunct is the center, which is always found; the points
-- of the loops start at the lower bound and do not pass the upper one.
module _ (geo : Geometry) (g : Grid) (info : SpatialInfo) where
  abbrev pub InSpots : SpotsAoi → Type 0
  InSpots aoi = Among info aoi.spots

  abbrev pub InBox : BoxAoi → Type 0
  InBox box =
      (c : SpatialInfo) × (e : SpatialInfo) × (box.center ≡ some c)
      × (box.extent ≡ some e)
      × ((info ≡ flat geo c.x c.z)
          ⊎ ((x : Float) × (z : Float) × (info ≡ flat geo x z)
              × Between geo (geo.minus c.x e.x) (geo.floats.plus c.x e.x)
                  (geo.half (geo.min_of e.x g.grid_width)) x
              × Between geo (geo.minus c.z e.z) (geo.floats.plus c.z e.z)
                  (geo.half (geo.min_of e.z g.grid_height)) z))

  -- The square of the distance is not above that of the radius.
  abbrev pub Near : SpatialInfo → Float → Type 0
  Near c r =
      geo.lt (geo.mul r r) (
        geo.floats.plus (geo.mul (geo.minus info.x c.x) (geo.minus info.x c.x))
          (geo.mul (geo.minus info.z c.z) (geo.minus info.z c.z)))
      ≡ false

  abbrev pub InSphere : SphereAoi → Type 0
  InSphere sphere =
      (c : SpatialInfo) × (sphere.center ≡ some c)
      × ((info ≡ flat geo c.x c.z)
          ⊎ ((x : Float) × (z : Float) × (info ≡ flat geo x z)
              × Between geo (geo.minus c.x sphere.radius) (geo.floats.plus c.x sphere.radius)
                  (geo.half (geo.min_of sphere.radius g.grid_width)) x
              × Between geo (geo.minus c.z sphere.radius) (geo.floats.plus c.z sphere.radius)
                  (geo.half (geo.min_of sphere.radius g.grid_height)) z
              × Near c sphere.radius))

  -- The direction to the point and that of the cone, as vectors of length 1, have a scalar product
  -- that is not below the cosine of the angle.
  abbrev pub Toward : SpatialInfo → SpatialInfo → Float → Type 0
  Toward c d angle =
      geo.lt
        (dot_2d geo (normalize_2d geo (flat geo (geo.minus info.x c.x) (geo.minus info.z c.z)))
          (normalize_2d geo (flat geo d.x d.z)))
        (geo.minus (geo.cos angle) geo.floats.zero_float)
      ≡ false

  abbrev pub InCone : ConeAoi → Type 0
  InCone cone =
      (c : SpatialInfo) × (d : SpatialInfo) × (cone.center ≡ some c)
      × (cone.direction ≡ some d)
      × ((info ≡ flat geo c.x c.z)
          ⊎ ((x : Float) × (z : Float) × (info ≡ flat geo x z)
              × Between geo (geo.max_of g.world_offset_x (geo.minus c.x cone.radius))
                  (geo.min_of
                    (geo.floats.plus g.world_offset_x (geo.floats.times g.grid_cols g.grid_width))
                    (geo.floats.plus c.x cone.radius))
                  (geo.half (geo.min_of cone.radius g.grid_width)) x
              × Between geo (geo.max_of g.world_offset_z (geo.minus c.z cone.radius))
                  (geo.min_of
                    (geo.floats.plus g.world_offset_z (geo.floats.times g.grid_rows g.grid_height))
                    (geo.floats.plus c.z cone.radius))
                  (geo.half (geo.min_of cone.radius g.grid_height)) z
              × Near c cone.radius
              × Toward c d cone.angle))

  -- A point of one of the areas that the query has.
  abbrev pub Covered : SpatialInterestQuery → Type 0
  Covered q =
      ((aoi : SpotsAoi) × (q.spots_aoi ≡ some aoi) × InSpots aoi)
      ⊎ ((box : BoxAoi) × (q.box_aoi ≡ some box) × InBox box)
      ⊎ ((sphere : SphereAoi) × (q.sphere_aoi ≡ some sphere) × InSphere sphere)
      ⊎ ((cone : ConeAoi) × (q.cone_aoi ≡ some cone) × InCone cone)
