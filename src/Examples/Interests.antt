-- ===== src/Examples/Interests.antt =====
-- Examples of areas of interest on the grid of the examples, with whole numbers in place of the
-- floating-point ones, and the square of a distance for the distance.
use channeld.Base.{
  ℕ, true, has_key, ◌+◌, ◌-◌, ◌*◌, ◌/◌, ◌&&◌, ◌≡◌, refl, none, some, [], ◌∷◌, ◌++◌, ◌==◌, leb, ltb,
  if◌then◌else◌, arith, lookup,
}
use channeld.World.Types.{
  SpatialInfo, SphereAoi, SpatialInterestQuery, World, MessageContext, update_spatial_interest,
}
use channeld.World.Access.{get_channel}
use channeld.Spatial.{get_channel_id, cell_id}
use channeld.Spatial.Interest.{query_spots, Geometry, Distances, flat, found, endless}
use channeld.Spatial.Interest.Queries.{query_sphere, query_channel_ids}
use channeld.Spatial.Interest.Loops.{query_sphere-endless}
use channeld.Spatial.Interest.Complete.{query_sphere_complete}
use channeld.Spatial.Interest.Found.{query_channel_ids-Covered, CoveredBy}
use channeld.Spatial.Interest.Update.{update_subscriptions}
use channeld.Spatial.Interest.Queued.{update_subscriptions-in_msg_queue, unsub_asked, sub_asked}
use channeld.Examples.{env, world, from}
use channeld.Examples.Spatial.{whole, grid}

abbrev whole_geometry : Geometry
whole_geometry = record {
  floats = whole;
  minus = λ x y. x - y;
  mul = λ x y. x * y;
  div = λ x y. x / y;
  half = λ x. x / 2;
  sqrt = λ x. x;
  cos = λ x. x;
  min_of = λ x y. if leb x y then x else y;
  max_of = λ x y. if leb x y then y else x;
  le = leb;
  lt = ltb;
  ceil = λ x. x;
}

abbrev middle : SpatialInfo
middle = record { x = 100; y = 0; z = 50 }

abbrev sphere : SphereAoi
sphere = record { center = some middle; radius = 20 }

-- From 1000 on the numbers are too large for a step.
abbrev rounding : Geometry
rounding = record whole_geometry {
  floats = record whole { plus = λ x y. if leb 1000 x && ltb y 20 then x else x + y };
}

abbrev far_away : SpatialInfo
far_away = record { x = 2000; y = 0; z = 50 }

abbrev far_sphere : SphereAoi
far_sphere = record { center = some far_away; radius = 20 }

query_sphere-endless_example : query_sphere rounding env grid 1000 far_sphere [] ≡ endless
query_sphere-endless_example =
    query_sphere-endless rounding env grid far_sphere far_away 1000 [] refl refl refl refl refl refl

-- A spot and the sphere.
abbrev query : SpatialInterestQuery
query = record {
  spots_aoi = some (record { spots = middle ∷ []; dists = 1 ∷ [] });
  box_aoi = none;
  sphere_aoi = some sphere;
  cone_aoi = none;
}

abbrev in_answer : Distances
in_answer = (10, 0) ∷ (5, 0) ∷ (6, 0) ∷ (9, 0) ∷ []

query-found : query_channel_ids whole_geometry env grid 200 (some query) ≡ found in_answer
unfolding query_channel_ids query_spots get_channel_id cell_id query_sphere
query-found = refl

query_channel_ids-Covered_example :
    (info : SpatialInfo) × (get_channel_id whole env grid info ≡ some 6)
    × CoveredBy whole_geometry env grid query info
unfolding lookup
query_channel_ids-Covered_example =
    query_channel_ids-Covered whole_geometry env grid query 200 in_answer query-found 6 refl

-- The sphere alone.
abbrev in_sphere : Distances
in_sphere = (5, 0) ∷ (6, 0) ∷ (9, 0) ∷ (10, 0) ∷ []

sphere-found : query_sphere whole_geometry env grid 200 sphere [] ≡ found in_sphere
unfolding query_sphere get_channel_id cell_id
sphere-found = refl

spot-id : get_channel_id whole env grid (flat whole_geometry 90 50) ≡ some 9
unfolding get_channel_id cell_id
spot-id = refl

query_sphere_complete_example : has_key 9 in_sphere ≡ true
query_sphere_complete_example =
    query_sphere_complete whole_geometry env grid 200 1 2 9 sphere middle [] in_sphere sphere-found
      refl (refl, refl) (refl, (refl, refl)) refl spot-id

-- The client 2 was subscribed to the channel 8 and is now interested in the channel 9.
abbrev moved_world : World
moved_world = record world {
  conns = λ c.
      if c == 2
      then record (world.conns 2) { spatial_subscriptions = (8, 8) ∷ [] }
      else world.conns c;
}

abbrev near_9 : Distances
near_9 = (9, 1) ∷ []

found_8 : get_channel moved_world 8 ≡ some 8
unfolding get_channel
found_8 = refl

alone_8 : (i : ℕ) → get_channel moved_world i ≡ some 8 → i ≡ 8
unfolding get_channel lookup
alone_8 i at = ground (arith, at)

abbrev message : MessageContext
message = from 2 (update_spatial_interest 2 none)

update_subscriptions-in_msg_queue_example :
    ((update_subscriptions env moved_world message 2 2 near_9).chans 8).in_msg_queue
    ≡ (moved_world.chans 8).in_msg_queue
      ++ unsub_asked env message 2 2 moved_world near_9 8 8
      ++ sub_asked env message 2 2 near_9 8 8
unfolding lookup
update_subscriptions-in_msg_queue_example =
    update_subscriptions-in_msg_queue env message 2 2 moved_world near_9 8 8 refl found_8 alone_8
      refl (refl, tt) (refl, tt)
