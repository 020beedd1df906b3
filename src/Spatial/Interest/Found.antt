-- ===== src/Spatial/Interest/Found.antt =====
-- What a query finds (pkg/channeld/spatial.go).
use channeld.Base.{
  ℕ, ◌≡◌, refl, subst, true, ◌&&◌, Option, none, some, [], arith, Option-cases, inl, inr, lookup,
  has_key,
}
use channeld.World.Types.{
  Env, SpatialInfo, SpotsAoi, BoxAoi, SphereAoi, ConeAoi, SpatialInterestQuery,
}
use channeld.Spatial.{Grid, get_channel_id}
use channeld.Spatial.Interest.{Geometry, Distances, found, flat, normalize_2d}
use channeld.Spatial.Interest.Queries.{
  query_box, query_sphere, query_cone, query_channel_ids, spots_of, in_radius, in_cone, box_area,
  sphere_area, cone_area,
}
use channeld.Spatial.Interest.Covered.{InBox, InSphere, InCone, Covered}
use channeld.Spatial.Interest.Walked.{
  InGrid, AllFound, walk_area-AllFound, query_spots-InGrid, and_then-AllFound, if_given-AllFound,
}

module _ (geo : Geometry) (env : Env) (g : Grid) (P : SpatialInfo → Type 0) (fuel : ℕ)
    (m : Distances) (inside : InGrid geo env g P m) where
  query_box-AllFound :
      (box : BoxAoi)
      → ((info : SpatialInfo) → InBox geo g info box → P info)
      → AllFound geo env g P (query_box geo env g fuel box m)
  unfolding query_box
  query_box-AllFound box p = elim (Option-cases box.center) [
    | inl missing ↦ rw missing tt
    | inr (c, at) ↦ elim (Option-cases box.extent) [
      | inl missing ↦ rw (at, missing) tt
      | inr (e, size) ↦
          rw (at, size)
            (walk_area-AllFound geo env g P fuel (box_area geo g (flat geo c.x c.z) e)
              (flat geo c.x c.z) (λ spot. true) m (p (flat geo c.x c.z) (c, e, at, size, inl refl))
              (λ x z bx bz covered. p (flat geo x z) (c, e, at, size, inr (x, z, refl, bx, bz)))
              inside)
    ]
  ]

  query_sphere-AllFound :
      (sphere : SphereAoi)
      → ((info : SpatialInfo) → InSphere geo g info sphere → P info)
      → AllFound geo env g P (query_sphere geo env g fuel sphere m)
  unfolding query_sphere
  query_sphere-AllFound sphere p = elim (Option-cases sphere.center) [
    | inl missing ↦ rw missing tt
    | inr (c, at) ↦
        let center = flat geo c.x c.z in
        rw at (
          walk_area-AllFound geo env g P fuel (sphere_area geo g center sphere.radius) center
            (in_radius geo center sphere.radius) m (p center (c, at, inl refl))
            (λ x z bx bz covered.
              p (flat geo x z) (c, at, inr (x, z, refl, bx, bz, ground (arith, covered))))
            inside)
  ]

  query_cone-AllFound :
      (cone : ConeAoi)
      → ((info : SpatialInfo) → InCone geo g info cone → P info)
      → AllFound geo env g P (query_cone geo env g fuel cone m)
  unfolding query_cone
  query_cone-AllFound cone p = elim (Option-cases cone.center) [
    | inl missing ↦ rw missing tt
    | inr (c, at) ↦ elim (Option-cases cone.direction) [
      | inl missing ↦ rw (at, missing) tt
      | inr (d, toward) ↦
          let center = flat geo c.x c.z in
          let dir = normalize_2d geo (flat geo d.x d.z) in
          rw (at, toward)
            (walk_area-AllFound geo env g P fuel (cone_area geo g center cone.radius) center
              (λ spot.
                in_radius geo center cone.radius spot && in_cone geo center dir cone.angle spot)
              m (p center (c, d, at, toward, inl refl))
              (λ x z bx bz covered. p (flat geo x z) (
                c,
                d,
                at,
                toward,
                inr (x, z, refl, bx, bz, ground (arith, covered), ground (arith, covered)),
              ))
              inside)
    ]
  ]

module _ (geo : Geometry) (env : Env) (g : Grid) (q : SpatialInterestQuery) where
  abbrev pub CoveredBy : SpatialInfo → Type 0
  CoveredBy info = Covered geo g info q

  spots_of-InGrid :
      (o : Option SpotsAoi) → q.spots_aoi ≡ o → InGrid geo env g CoveredBy (spots_of geo env g o)
  unfolding lookup
  spots_of-InGrid none e = λ id listed. ground (arith, listed)
  spots_of-InGrid (some aoi) e =
      query_spots-InGrid geo env g CoveredBy aoi.spots aoi.dists [] (λ info k. inl (aoi, e, k))
        (λ id listed. ground (arith, listed))

  query_channel_ids-AllFound :
      (fuel : ℕ) → AllFound geo env g CoveredBy (query_channel_ids geo env g fuel (some q))
  unfolding query_channel_ids
  query_channel_ids-AllFound fuel =
      and_then-AllFound geo env g CoveredBy _ _
        (and_then-AllFound geo env g CoveredBy _ _
          (if_given-AllFound geo env g CoveredBy q.box_aoi (query_box geo env g fuel)
            (spots_of geo env g q.spots_aoi)
            (λ box m e inside.
              query_box-AllFound geo env g CoveredBy fuel m inside box
                (λ info k. inr (inl (box, e, k))))
            (spots_of-InGrid q.spots_aoi refl))
          (λ m.
            if_given-AllFound geo env g CoveredBy q.sphere_aoi (query_sphere geo env g fuel) m
              (λ sphere m' e inside.
                query_sphere-AllFound geo env g CoveredBy fuel m' inside sphere
                  (λ info k. inr (inr (inl (sphere, e, k)))))))
        (λ m.
          if_given-AllFound geo env g CoveredBy q.cone_aoi (query_cone geo env g fuel) m
            (λ cone m' e inside.
              query_cone-AllFound geo env g CoveredBy fuel m' inside cone
                (λ info k. inr (inr (inr (cone, e, k))))))

  -- Every channel that a query finds is the channel of a point that one of its areas covers: one of
  -- the spots given, the center of an area, or a point that the loops over an area reach between its
  -- bounds and that is within the radius of a sphere or cone and the angle of a cone.
  pub query_channel_ids-Covered :
      (fuel : ℕ) (m : Distances)
      → query_channel_ids geo env g fuel (some q) ≡ found m
      → (id : ℕ) → has_key id m ≡ true
      → (info : SpatialInfo) × (get_channel_id geo.floats env g info ≡ some id) × CoveredBy info
  query_channel_ids-Covered fuel m found_ =
      subst (AllFound geo env g CoveredBy) found_ (query_channel_ids-AllFound fuel)
