-- ===== src/Examples/Handovers.antt =====
-- Examples of a handover: the channels 4 and 5 are spatial, of the servers 1 and 4, and the client 2 is
-- subscribed to both. The entities are those of the small process.
use channeld.Base.{
  ℕ, ◌+◌, ◌≡◌, ◌≢◌, refl, true, false, not, ◌&&◌, some, [], ◌∷◌, ◌==◌, if◌then◌else◌, arith, lookup,
  has_key,
}
use channeld.World.Types.{World, Channel, ConnRef, EntityController}
use channeld.World.Access.{spatial_type, get_channel, get_owner, is_same_owner, is_closing}
use channeld.Spatial.Handover.{HandoverEnv, Moving, hand_over, notify}
use channeld.Spatial.Handover.Frame.{handovers}
use channeld.Spatial.Handover.Owners.{hand_over-owner}
use channeld.Spatial.Handover.Sent.{hand_over-handovers}
use channeld.Spatial.Handover.Locked.{notify-locked}
use channeld.Examples.{env, world, chan_of, subscription}
use channeld.Examples.Spatial.{whole, grid}
use channeld.World.Types.{SpatialInfo}

abbrev spatial_of : ℕ → ConnRef → Channel
spatial_of id owner = record (chan_of id spatial_type owner) {
  subscribed_connections = (owner, subscription) ∷ (2, subscription) ∷ [];
}

abbrev spatial_world : World
spatial_world = record world {
  chans =
      λ ch. if ch == 4 then spatial_of 4 1 else if ch == 5 then spatial_of 5 4 else world.chans ch;
  all_channels = (4, 4) ∷ (5, 5) ∷ (8, 8) ∷ (9, 9) ∷ [];
}

abbrev handover_env : HandoverEnv
handover_env = record {
  is_updater = λ m. true;
  remove_entity = λ m id. some m;
  add_entity = λ m id d. some m;
  merge_to = λ d m full. m;
  new_message = λ m. m;
  handover_data_provider = λ src dst. 8;
}

abbrev moving : Moving
moving = (8, some 5) ∷ (9, some 5) ∷ []

found_9 : get_channel spatial_world 9 ≡ some 9
unfolding get_channel
found_9 = refl

between_servers : is_same_owner spatial_world 4 5 ≡ false
unfolding is_same_owner
between_servers = refl

hand_over-owner_example :
    get_owner (hand_over handover_env env spatial_world 4 5 4 5 0 moving).0 9 ≡ some 4
unfolding lookup
hand_over-owner_example =
    hand_over-owner handover_env env spatial_world 4 5 4 5 0 moving 9 9 between_servers refl found_9

from_8 :
    (id x : ℕ)
    → get_channel spatial_world id ≡ some x
    → has_key id moving ≡ true
    → (x ≢ 4) × (x ≢ 5)
unfolding get_channel
from_8 id x at listed = (λ e. ground (arith, at, listed, e), λ e. ground (arith, at, listed, e))

two_open : is_closing spatial_world 2 ≡ false
unfolding is_closing
two_open = refl

hand_over-handovers_example :
    handovers (((hand_over handover_env env spatial_world 4 5 4 5 0 moving).0.conns 2).send_queue)
    ≡ 0 + (if true && not (is_closing spatial_world 2) then 1 else 0)
unfolding lookup
hand_over-handovers_example =
    hand_over-handovers handover_env env 4 5 4 5 moving (λ m ctx_id. (m, refl, refl)) spatial_world
      0 2 (refl, (refl, tt)) (refl, (refl, tt)) (λ id x listed at. (from_8 id x at listed).0)
      (λ id x listed at. (from_8 id x at listed).1)

-- The entity 9 is locked with the entity 8.
abbrev locked : EntityController
locked = record { entity_id = 8; handover_group = some 0; lock_group = some 0 }

abbrev locked_world : World
locked_world = record spatial_world { controllers = λ ch. some locked }

found_8 : get_channel locked_world 8 ≡ some 8
unfolding get_channel
found_8 = refl

-- Two cells of the grid, side by side.
abbrev before : SpatialInfo
before = record { x = 10; y = 0; z = 10 }

abbrev after : SpatialInfo
after = record { x = 60; y = 0; z = 10 }

notify-locked_example :
    notify handover_env whole env grid locked_world before after ≡ (locked_world, [])
notify-locked_example =
    notify-locked handover_env whole env grid locked_world before after 8 0 9 8 locked
      (λ src dst. refl) found_8 refl refl refl refl
