-- ===== src/Handlers/Groups.antt =====
-- `handleAddEntityGroup`, `handleRemoveEntityGroup` and `Channel.GetHandoverEntities`
-- (pkg/channeld/entity.go). `c` is the connection in `ctx.Connection`, `ch` the channel of the entity.
pub mod Owner
use channeld.Base.{ℕ, Bool, true, false, Option, none, some, List, [], ◌∷◌, opt_eq, if◌then◌else◌}
use channeld.Ids.{copy_array}
use channeld.World.Types.{
  ConnRef, ChanRef, World, MessageContext, add_entity_group, remove_entity_group, EntityController,
}
use channeld.World.Access.{get_owner, get_channel}
use channeld.Entity.{
  add_to_group, remove_from_group, RemoveResult, removed, no_group, panic, handover_entities,
}

unfoldable pub handle_add_entity_group : World → MessageContext → ConnRef → ChanRef → World
unfolding add_to_group copy_array
handle_add_entity_group w ctx c ch =
    if opt_eq (get_owner w ch) (some c)
    then elim ctx.msg [
      | add_entity_group t ids ↦ elim (w.controllers ch) [
        | none ↦ w
        | some ctl ↦ add_to_group w ch ctl t (copy_array ids)
      ]
      | _ ↦ w
    ]
    else w

-- Without a group the error is logged.
abbrev pub after_remove : World → RemoveResult → Option World
after_remove w (removed w') = some w'
after_remove w no_group = some w
after_remove w panic = none

-- `none` is the panic of `RemoveFromGroup`.
unfoldable pub handle_remove_entity_group :
    World → MessageContext → ConnRef → ChanRef → Option World
unfolding remove_from_group copy_array
handle_remove_entity_group w ctx c ch =
    if opt_eq (get_owner w ch) (some c)
    then elim ctx.msg [
      | remove_entity_group t ids ↦ elim (w.controllers ch) [
        | none ↦ some w
        | some ctl ↦ after_remove w (remove_from_group w ch ctl t (copy_array ids))
      ]
      | _ ↦ some w
    ]
    else some w

abbrev pub data_message : World → Option ChanRef → Option ℕ
data_message w none = none
data_message w (some ch) = elim (w.chans ch).channel_data [ none ↦ none | some d ↦ d.msg ]

abbrev pub with_data : World → List ℕ → List (ℕ × Option ℕ)
with_data w [] = []
with_data w (id ∷ ids) = (id, data_message w (get_channel w id)) ∷ with_data w ids

-- The entities that move with one, and the data of those that have a channel; no map without a
-- controller.
unfoldable pub get_handover_entities : World → ChanRef → Option (List (ℕ × Option ℕ))
unfolding handover_entities get_channel
get_handover_entities w ch = elim (w.controllers ch) [
  | none ↦ none
  | some ctl ↦ some (with_data w (handover_entities w ctl))
]
