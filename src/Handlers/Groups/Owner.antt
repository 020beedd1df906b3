-- ===== src/Handlers/Groups/Owner.antt =====
-- Who can change the groups of an entity, and what a wrong member does (pkg/channeld/entity.go).
use channeld.Base.{ℕ, ◌≡◌, ◌≢◌, ◌%◌, none, some, List, ◌∷◌, arith}
use channeld.Ids.{copy_array, u32_mod}
use channeld.World.Types.{
  ConnRef, ChanRef, World, MessageContext, remove_entity_group, EntityController,
}
use channeld.World.Access.{get_owner, get_channel}
use channeld.Entity.{remove_from_group, remove_entities, group_of}
use channeld.Handlers.Groups.{handle_add_entity_group, handle_remove_entity_group}

-- Only the owner of the channel of an entity changes groups: the messages of others do nothing.
handle_groups-refused :
    (w : World) (ctx : MessageContext) (c : ConnRef) (ch : ChanRef)
    → get_owner w ch ≢ some c
    → (handle_add_entity_group w ctx c ch ≡ w) × (handle_remove_entity_group w ctx c ch ≡ some w)
unfolding handle_add_entity_group handle_remove_entity_group
handle_groups-refused w ctx c ch other = (ground (arith, other), ground (arith, other))

-- The message of an owner that takes the id of a channel that is no entity out of a group, which has
-- no controller, makes the server panic, when this id comes first.
handle_remove_entity_group-panics :
    (w : World) (ctx : MessageContext) (c : ConnRef) (ch e : ChanRef) (t id g : ℕ) (ids : List ℕ)
    (ctl : EntityController)
    → get_owner w ch ≡ some c
    → ctx.msg ≡ remove_entity_group t (id ∷ ids)
    → w.controllers ch ≡ some ctl
    → group_of ctl t ≡ some g
    → get_channel w (id % u32_mod) ≡ some e
    → w.controllers e ≡ none
    → handle_remove_entity_group w ctx c ch ≡ none
unfolding handle_remove_entity_group copy_array remove_from_group remove_entities
handle_remove_entity_group-panics w ctx c ch e t id g ids ctl owner named own group found bare =
    ground (arith, owner, named, own, group, found, bare)
