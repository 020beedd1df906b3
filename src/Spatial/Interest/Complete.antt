-- ===== src/Spatial/Interest/Complete.antt =====
-- That a query leaves no point of a sphere out (`QueryChannelIds` of pkg/channeld/spatial.go).
use channeld.Base.{
  ℕ, zero, suc, ◌≡◌, Bool, true, Option, some, arith, Bool-cases, Option-cases, inl, inr, insert,
  has_key, lookup-insert, ==_self,
}
use channeld.World.Types.{Env, Float, SpatialInfo, SphereAoi}
use channeld.Spatial.{Grid, get_channel_id}
use channeld.Spatial.Interest.{
  Geometry, Distances, found, walk, walk_row, row_body, walk_area, Area, flat, add_spot, dist_2d,
  grid_size,
}
use channeld.Spatial.Interest.Queries.{query_sphere, sphere_area, in_radius}
use channeld.Spatial.Interest.Covered.{point, Near}

-- The loop comes to its `n`-th point: no point before it, nor itself, is above the limit.
abbrev pub Reached : Geometry → (from to step : Float) → ℕ → Type 0
Reached geo from to step zero = geo.le from to ≡ true
Reached geo from to step (suc n) =
    (geo.le from to ≡ true) × Reached geo (geo.floats.plus from step) to step n

has_key-insert :
    (id k d : ℕ) (m : Distances) → has_key id m ≡ true → has_key id (insert k d m) ≡ true
has_key-insert id k d m there = ground (arith, there, lookup-insert k id d m)

module _ (id : ℕ) where
  -- A body that loses no channel.
  abbrev Keeps : (Distances → Option Distances) → Type 0
  Keeps f = (m m' : Distances) → f m ≡ some m' → has_key id m ≡ true → has_key id m' ≡ true

  abbrev Adds : (Distances → Option Distances) → Type 0
  Adds f = (m m' : Distances) → f m ≡ some m' → has_key id m' ≡ true

  module _ (geo : Geometry) (step limit : Float) (body : Float → Distances → Option Distances)
      (keeps : (x : Float) → Keeps (body x)) where
    -- One round.
    walk-suc :
        (fuel : ℕ) (x : Float) (m m' : Distances)
        → geo.le x limit ≡ true
        → walk geo (suc fuel) step limit x body m ≡ some m'
        → (next : Distances) × (body x m ≡ some next)
          × (walk geo fuel step limit (geo.floats.plus x step) body next ≡ some m')
    unfolding walk
    walk-suc fuel x m m' below ends = elim (Option-cases (body x m)) [
      | inl stuck ↦ absurd (ground (arith, ends, below, stuck))
      | inr (next, made) ↦ (next, made, ground (arith, ends, below, made))
    ]

    walk-Keeps : (fuel : ℕ) (x : Float) → Keeps (walk geo fuel step limit x body)
    unfolding walk
    walk-Keeps zero x m m' ends there = ground (arith, ends)
    walk-Keeps (suc fuel) x m m' ends there = elim (Bool-cases (geo.le x limit)) [
      | inr above ↦ ground (arith, ends, above, there)
      | inl below ↦
          let (next, made, rest) = walk-suc fuel x m m' below ends in
          walk-Keeps fuel (geo.floats.plus x step) next m' rest (keeps x m next made there)
    ]

    -- A loop that ends has found what its body finds at a point that it reaches.
    pub walk-Adds :
        (n fuel : ℕ) (x : Float)
        → Reached geo x limit step n
        → Adds (body (point geo x step n))
        → Adds (walk geo fuel step limit x body)
    unfolding walk
    walk-Adds n zero x reached adds m m' ends = ground (arith, ends)
    walk-Adds zero (suc fuel) x below adds m m' ends =
        let (next, made, rest) = walk-suc fuel x m m' below ends in
        walk-Keeps fuel (geo.floats.plus x step) next m' rest (adds m next made)
    walk-Adds (suc n) (suc fuel) x (below, reached) adds m m' ends =
        let (next, made, rest) = walk-suc fuel x m m' below ends in
        walk-Adds n fuel (geo.floats.plus x step) reached adds next m' rest

module _ (geo : Geometry) (env : Env) (g : Grid) (center : SpatialInfo)
    (covers : SpatialInfo → Bool) (id : ℕ) where
  add_spot-Keeps :
      (spot : SpatialInfo) (m : Distances)
      → has_key id m ≡ true
      → has_key id (add_spot geo env g center spot m) ≡ true
  add_spot-Keeps spot m there = elim (Option-cases (get_channel_id geo.floats env g spot)) [
    | inl outside ↦ ground (arith, outside, there)
    | inr (k, at) ↦ rw (add_spot, at) (has_key-insert id k _ m there)
  ]

  row_body-Keeps : (z x : Float) → Keeps id (row_body geo env g center covers z x)
  row_body-Keeps z x m m' made there = elim (Bool-cases (covers (flat geo x z))) [
    | inl yes_ ↦ ground (arith, made, yes_, add_spot-Keeps (flat geo x z) m there)
    | inr no_ ↦ ground (arith, made, no_, there)
  ]

  row_body-Adds :
      (z x : Float)
      → covers (flat geo x z) ≡ true
      → get_channel_id geo.floats env g (flat geo x z) ≡ some id
      → Adds id (row_body geo env g center covers z x)
  row_body-Adds z x covered at m m' made = ground (
    arith,
    made,
    covered,
    at,
    added (geo.ceil (geo.div (dist_2d geo center (flat geo x z)) (grid_size geo g))) m,
  )
    where
      added : (d : ℕ) (m : Distances) → has_key id (insert id d m) ≡ true
      added d m = ground (arith, lookup-insert id id d m, ==_self id)

  walk_area_complete :
      (fuel i j : ℕ) (a : Area) (m m' : Distances)
      → walk_area geo env g fuel a center covers m ≡ found m'
      → Reached geo a.from_x a.to_x a.step_x i
      → Reached geo a.from_z a.to_z a.step_z j
      → let spot = flat geo (point geo a.from_x a.step_x i) (point geo a.from_z a.step_z j) in
        covers spot ≡ true → get_channel_id geo.floats env g spot ≡ some id → has_key id m' ≡ true
  unfolding walk_area walk_row
  walk_area_complete fuel i j a m m' ends reached_x reached_z covered at =
      elim (Bool-cases (geo.le a.step_z geo.floats.zero_float)) [
        | inl wrong ↦ absurd (ground (arith, ends, wrong))
        | inr some_z ↦ elim (Bool-cases (geo.le a.step_x geo.floats.zero_float)) [
          | inl wrong ↦ absurd (ground (arith, ends, wrong, some_z))
          | inr some_x ↦
              elim (Option-cases (
                walk geo fuel a.step_z a.to_z a.from_z (walk_row geo env g fuel a center covers)
                  m)) [
                    | inl stuck ↦ absurd (ground (arith, ends, some_z, some_x, stuck))
                    | inr (mid, made) ↦
                        let there : has_key id mid ≡ true =
                          walk-Adds id geo a.step_z a.to_z (walk_row geo env g fuel a center covers)
                            (λ z.
                              walk-Keeps id geo a.step_x a.to_x (row_body geo env g center covers z)
                                (row_body-Keeps z) fuel a.from_x)
                            j fuel a.from_z reached_z
                            (walk-Adds id geo a.step_x a.to_x
                              (row_body geo env g center covers (point geo a.from_z a.step_z j))
                              (row_body-Keeps (point geo a.from_z a.step_z j)) i fuel a.from_x
                              reached_x
                              (row_body-Adds (point geo a.from_z a.step_z j)
                                (point geo a.from_x a.step_x i) covered at))
                            m mid made in
                        elim (Option-cases (get_channel_id geo.floats env g center)) [
                          | inl outside ↦
                              absurd (ground (arith, ends, some_z, some_x, made, outside))
                          | inr (k, middle) ↦ ground (
                            arith,
                            ends,
                            some_z,
                            some_x,
                            made,
                            middle,
                            has_key-insert id k 0 mid there,
                          )
                        ]
                  ]
        ]
      ]

-- A query of a sphere that ends with channels has found the channel of every point that its loops
-- reach, that is not farther from the center than the radius and that lies in the grid. (The loops start at the center less the radius, go on by half the radius or
-- half the size of a cell, whichever is less, and stop above the center plus the radius.)
pub query_sphere_complete :
    (geo : Geometry) (env : Env) (g : Grid) (fuel i j id : ℕ) (sphere : SphereAoi) (c : SpatialInfo)
    (m m' : Distances)
    → query_sphere geo env g fuel sphere m ≡ found m'
    → sphere.center ≡ some c
    → let from_x = geo.minus c.x sphere.radius in
      let from_z = geo.minus c.z sphere.radius in
      let step_x = geo.half (geo.min_of sphere.radius g.grid_width) in
      let step_z = geo.half (geo.min_of sphere.radius g.grid_height) in
      let spot = flat geo (point geo from_x step_x i) (point geo from_z step_z j) in
      Reached geo from_x (geo.floats.plus c.x sphere.radius) step_x i
      → Reached geo from_z (geo.floats.plus c.z sphere.radius) step_z j
      → Near geo g spot c sphere.radius
      → get_channel_id geo.floats env g spot ≡ some id
      → has_key id m' ≡ true
unfolding query_sphere
query_sphere_complete geo env g fuel i j id sphere c m m' ends at reached_x reached_z near at_id =
    walk_area_complete geo env g (flat geo c.x c.z) (in_radius geo (flat geo c.x c.z) sphere.radius)
      id fuel i j (sphere_area geo g (flat geo c.x c.z) sphere.radius) m m'
      (ground (arith, ends, at)) reached_x reached_z (ground (arith, near)) at_id
