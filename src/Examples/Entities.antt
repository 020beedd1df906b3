-- ===== src/Examples/Entities.antt =====
-- Examples of entity groups.
use channeld.Base.{◌≡◌, refl, true, none, some, [], ◌∷◌, contains, lookup}
use channeld.World.Types.{World, EntityController}
use channeld.World.Access.{get_channel}
use channeld.Entity.{
  add_to_group, remove_from_group, removed, new_group, set_group, delete_id, handover,
}
use channeld.Entity.Shared.{add_to_group-shares, target, in_group}
use channeld.Examples.{world}

abbrev entity_8 : EntityController
entity_8 = record { entity_id = 8; handover_group = some 0; lock_group = none }

found_9 : get_channel world 9 ≡ some 9
unfolding get_channel lookup
found_9 = refl

found_8 : get_channel world 8 ≡ some 8
unfolding get_channel lookup
found_8 = refl

found_1 : get_channel world 1 ≡ some 1
unfolding get_channel lookup
found_1 = refl

add_to_group-shares_example :
    let w' = add_to_group world 8 entity_8 handover (9 ∷ []) in
    (contains 9 (w'.groups (target world entity_8)) ≡ true)
    × (in_group (target world entity_8) (w'.controllers 9) ≡ true)
add_to_group-shares_example =
    add_to_group-shares world 8 entity_8 (9 ∷ []) 9 9 refl found_9 refl refl

-- The group without the entity, which has a new one.
abbrev left_world : World
left_world = new_group (set_group world 0 (delete_id 8 (world.groups 0))) 8 entity_8 handover

leaves_alone : remove_from_group world 8 entity_8 handover (8 ∷ []) ≡ removed left_world
unfolding remove_from_group get_channel lookup
leaves_alone = refl
