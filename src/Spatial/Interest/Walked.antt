-- ===== src/Spatial/Interest/Walked.antt =====
-- What the loops over an area find (pkg/channeld/spatial.go).
use channeld.Base.{
  ℕ, zero, suc, ◌≡◌, refl, ◌∙◌, ap, subst, Bool, true, Option, none, some, List, [], ◌∷◌, ◌==◌,
  arith, Bool-cases, Option-cases, inl, inr, insert, has_key, lookup-insert, if-cases,
}
use channeld.World.Types.{Env, Float, SpatialInfo}
use channeld.Spatial.{Grid, get_channel_id}
use channeld.Spatial.Interest.{
  Geometry, Distances, QueryResult, found, query_error, query_panic, endless, and_then, walk,
  walk_row, row_body, add_center, as_result, walk_area, query_spots, Area, flat,
}
use channeld.Spatial.Interest.Queries.{if_given}
use channeld.Spatial.Interest.Covered.{Between, Among}

module _ (geo : Geometry) (env : Env) (g : Grid) (P : SpatialInfo → Type 0) where
  -- Every channel of a map is that of a point in the grid for which `P` holds.
  abbrev pub InGrid : Distances → Type 0
  InGrid m =
      (id : ℕ)
      → has_key id m ≡ true
      → (info : SpatialInfo) × (get_channel_id geo.floats env g info ≡ some id) × P info

  abbrev pub AllFound : QueryResult → Type 0
  AllFound (found m) = InGrid m
  AllFound query_error = Unit {0}
  AllFound query_panic = Unit {0}
  AllFound endless = Unit {0}

  insert-InGrid :
      (id d : ℕ) (info : SpatialInfo) (m : Distances)
      → get_channel_id geo.floats env g info ≡ some id
      → P info
      → InGrid m
      → InGrid (insert id d m)
  insert-InGrid id d info m at p inside k listed = elim (Bool-cases (id == k)) [
    | inl same ↦ (info, at ∙ ap some (ground (arith, same)), p)
    | inr other ↦ inside k (ground (arith, listed, other, lookup-insert id k d m))
  ]

  -- The steps of the loops.
  at_point :
      (d : ℕ → ℕ) (info : SpatialInfo) (m : Distances) (o : Option ℕ)
      → get_channel_id geo.floats env g info ≡ o
      → P info
      → InGrid m
      → InGrid (elim o [ none ↦ m | some id ↦ insert id (d id) m ])
  at_point d info m none at p inside = inside
  at_point d info m (some id) at p inside = insert-InGrid id (d id) info m at p inside

  abbrev IfSome : Option Distances → Type 0
  IfSome none = Unit {0}
  IfSome (some m) = InGrid m

  walk-IfSome :
      (fuel : ℕ) (step limit x : Float) (body : Float → Distances → Option Distances)
      (m : Distances)
      → ((y : Float) (m' : Distances) → Between geo x limit step y → InGrid m' → IfSome (body y m'))
      → InGrid m
      → IfSome (walk geo fuel step limit x body m)
  unfolding walk
  walk-IfSome zero step limit x body m keeps inside = tt
  walk-IfSome (suc fuel) step limit x body m keeps inside = elim (Bool-cases (geo.le x limit)) [
    | inr above ↦ rw (walk, above) inside
    | inl below ↦ elim (Option-cases (body x m)) [
      | inl stuck ↦ rw (walk, below, stuck) tt
      | inr (m', made) ↦
          rw (walk, below, made)
            (walk-IfSome fuel step limit (geo.floats.plus x step) body m'
              (λ y m'' (n, e, l). keeps y m'' (suc n, e, l))
              (subst IfSome made (keeps x m (zero, refl, below) inside)))
    ]
  ]

  row_body-InGrid :
      (center : SpatialInfo) (covers : SpatialInfo → Bool) (z x : Float) (m : Distances)
      → (covers (flat geo x z) ≡ true → P (flat geo x z))
      → InGrid m
      → IfSome (row_body geo env g center covers z x m)
  row_body-InGrid center covers z x m p inside =
      if-cases InGrid (covers (flat geo x z))
        (λ covered.
          at_point _ (flat geo x z) m (get_channel_id geo.floats env g (flat geo x z)) refl
            (p covered) inside)
        (λ outside. inside)

  pub walk_area-AllFound :
      (fuel : ℕ) (a : Area) (center : SpatialInfo) (covers : SpatialInfo → Bool) (m : Distances)
      → P center
      → ((x z : Float)
          → Between geo a.from_x a.to_x a.step_x x
          → Between geo a.from_z a.to_z a.step_z z
          → covers (flat geo x z) ≡ true
          → P (flat geo x z))
      → InGrid m
      → AllFound (walk_area geo env g fuel a center covers m)
  unfolding walk_area walk_row
  walk_area-AllFound fuel a center covers m p_center p inside =
      if-cases AllFound (geo.le a.step_z geo.floats.zero_float) (λ wrong. tt)
        λ some_z.
          if-cases AllFound (geo.le a.step_x geo.floats.zero_float) (λ wrong. tt)
            λ some_x.
              with_center
                (walk geo fuel a.step_z a.to_z a.from_z (walk_row geo env g fuel a center covers) m)
                (walk-IfSome fuel a.step_z a.to_z a.from_z (walk_row geo env g fuel a center covers)
                  m
                  (λ z m' bz.
                    walk-IfSome fuel a.step_x a.to_x a.from_x (row_body geo env g center covers z)
                      m' (λ x m'' bx. row_body-InGrid center covers z x m'' (p x z bx bz)))
                  inside)
    where
      centered :
          (m' : Distances) (o : Option ℕ)
          → get_channel_id geo.floats env g center ≡ o
          → InGrid m'
          → AllFound (elim o [ none ↦ query_error | some id ↦ found (insert id 0 m') ])
      centered m' none at inside' = tt
      centered m' (some id) at inside' = insert-InGrid id 0 center m' at p_center inside'

      with_center :
          (o : Option Distances)
          → IfSome o
          → AllFound (and_then (as_result o) (add_center geo env g center))
      with_center none ended = tt
      with_center (some m') ended = centered m' (get_channel_id geo.floats env g center) refl ended

  pub query_spots-InGrid :
      (spots : List SpatialInfo) (dists : List ℕ) (m : Distances)
      → ((info : SpatialInfo) → Among info spots → P info)
      → InGrid m
      → InGrid (query_spots geo env g spots dists m)
  unfolding query_spots
  query_spots-InGrid [] dists m p inside = inside
  query_spots-InGrid (spot ∷ spots) [] m p inside =
      query_spots-InGrid spots [] _ (λ info k. p info (inr k))
        (at_point (λ id. 0) spot m (get_channel_id geo.floats env g spot) refl (p spot (inl refl))
          inside)
  query_spots-InGrid (spot ∷ spots) (d ∷ dists) m p inside =
      query_spots-InGrid spots dists _ (λ info k. p info (inr k))
        (at_point (λ id. d) spot m (get_channel_id geo.floats env g spot) refl (p spot (inl refl))
          inside)

  pub and_then-AllFound :
      (r : QueryResult) (f : Distances → QueryResult)
      → AllFound r
      → ((m : Distances) → InGrid m → AllFound (f m))
      → AllFound (and_then r f)
  and_then-AllFound (found m) f inside keeps = keeps m inside
  and_then-AllFound query_error f inside keeps = tt
  and_then-AllFound query_panic f inside keeps = tt
  and_then-AllFound endless f inside keeps = tt

  pub if_given-AllFound {ℓ} :
      {A : Type ℓ} (o : Option A) (f : A → Distances → QueryResult) (m : Distances)
      → ((a : A) (m' : Distances) → o ≡ some a → InGrid m' → AllFound (f a m'))
      → InGrid m
      → AllFound (if_given o f m)
  if_given-AllFound none f m keeps inside = inside
  if_given-AllFound (some a) f m keeps inside = keeps a m refl inside
