-- ===== src/Spatial/Interest/Loops.antt =====
-- Loops over an area that do not end (pkg/channeld/spatial.go).
use channeld.Base.{
  ℕ, zero, suc, ◌≡◌, refl, Bool, true, false, Option, none, some, Option-cases, inl, inr,
}
use channeld.World.Types.{Env, Float, SpatialInfo, SphereAoi}
use channeld.Spatial.{Grid}
use channeld.Spatial.Interest.{
  Geometry, Distances, endless, walk, walk_row, walk_area, row_body, Area, flat,
}
use channeld.Spatial.Interest.Queries.{query_sphere, sphere_area, in_radius}

-- A body that does not end.
walk-stuck :
    (geo : Geometry) (fuel : ℕ) (step limit x : Float) (body : Float → Distances → Option Distances)
    (m : Distances)
    → geo.le x limit ≡ true
    → body x m ≡ none
    → walk geo (suc fuel) step limit x body m ≡ none
unfolding walk
walk-stuck geo fuel step limit x body m below stuck = rw (walk, below, stuck) refl

-- Where the step is lost in the rounding, a loop stays at its point.
walk-stays :
    (geo : Geometry) (step limit x : Float) (body : Float → Distances → Option Distances)
    → geo.le x limit ≡ true
    → geo.floats.plus x step ≡ x
    → (fuel : ℕ) (m : Distances) → walk geo fuel step limit x body m ≡ none
unfolding walk
walk-stays geo step limit x body below lost zero m = refl
walk-stays geo step limit x body below lost (suc fuel) m = elim (Option-cases (body x m)) [
  | inl stuck ↦ rw (walk, below, stuck) refl
  | inr (m', made) ↦
      rw (walk, below, made, lost) (walk-stays geo step limit x body below lost fuel m')
]

module _ (geo : Geometry) (env : Env) (g : Grid) (a : Area) (center : SpatialInfo)
    (covers : SpatialInfo → Bool) where
  walk_area-endless :
      (fuel : ℕ) (m : Distances)
      → geo.le a.step_x geo.floats.zero_float ≡ false
      → geo.le a.step_z geo.floats.zero_float ≡ false
      → geo.le a.from_z a.to_z ≡ true
      → geo.le a.from_x a.to_x ≡ true
      → geo.floats.plus a.from_x a.step_x ≡ a.from_x
      → walk_area geo env g fuel a center covers m ≡ endless
  unfolding walk_area walk walk_row
  walk_area-endless zero m some_x some_z row column lost = rw (some_z, some_x) refl
  walk_area-endless (suc fuel) m some_x some_z row column lost =
      let stays =
        walk-stays geo a.step_x a.to_x a.from_x (row_body geo env g center covers a.from_z) column
          lost (suc fuel) m in
      let stuck =
        walk-stuck geo fuel a.step_z a.to_z a.from_z (walk_row geo env g (suc fuel) a center covers)
          m row stays in
      rw (some_z, some_x, stuck) refl

module _ (geo : Geometry) (env : Env) (g : Grid) (sphere : SphereAoi) (c : SpatialInfo) where
  abbrev area : Area
  area = sphere_area geo g (flat geo c.x c.z) sphere.radius

  -- Where the step along a row is lost in the rounding at its first point, as that of a tiny radius far
  -- from the origin, no fuel is enough for a query of a sphere: the channel hangs.
  pub query_sphere-endless :
      (fuel : ℕ) (m : Distances)
      → sphere.center ≡ some c
      → geo.le area.step_x geo.floats.zero_float ≡ false
      → geo.le area.step_z geo.floats.zero_float ≡ false
      → geo.le area.from_z area.to_z ≡ true
      → geo.le area.from_x area.to_x ≡ true
      → geo.floats.plus area.from_x area.step_x ≡ area.from_x
      → query_sphere geo env g fuel sphere m ≡ endless
  unfolding query_sphere
  query_sphere-endless fuel m at some_x some_z row column lost = rw at (
      walk_area-endless geo env g area (flat geo c.x c.z)
        (in_radius geo (flat geo c.x c.z) sphere.radius) fuel m some_x some_z row column lost)
