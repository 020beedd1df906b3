-- ===== src/Entity.antt =====
-- The groups of entities (pkg/channeld/entity.go): `FlatEntityGroupController`, the only controller
-- there is. Its lock makes each method one step.
pub mod Frame
pub mod Shared
pub mod Removed
use channeld.Base.{
  ℕ, suc, Bool, true, false, not, ◌&&◌, ◌||◌, Option, none, some, List, [], ◌∷◌, ◌++◌, ◌==◌,
  if◌then◌else◌, update, contains, lookup,
}
use channeld.World.Types.{ChanRef, World, EntityController}
use channeld.World.Access.{get_channel, entity_type}

-- `EntityGroupType`.
abbrev pub handover : ℕ
handover = 0

abbrev pub lock : ℕ
lock = 1

-- `Store` and `Delete` of a key in a set of entities, which is a list without doubles.
unfoldable pub add_id : ℕ → List ℕ → List ℕ
add_id id ids = if contains id ids then ids else ids ++ id ∷ []

unfoldable pub delete_id : ℕ → List ℕ → List ℕ
delete_id id [] = []
delete_id id (x ∷ xs) = let rest = delete_id id xs in if x == id then rest else x ∷ rest

-- `EntityGroup.Add` of the entities of another group.
unfoldable pub add_ids : List ℕ → List ℕ → List ℕ
unfolding add_id
add_ids [] ids = ids
add_ids (x ∷ xs) ids = add_ids xs (add_id x ids)

abbrev pub members : World → Option ℕ → List ℕ
members w none = []
members w (some g) = w.groups g

abbrev pub set_group : World → ℕ → List ℕ → World
set_group w g ids = record w { groups = update w.groups g ids }

abbrev pub set_controller : World → ChanRef → EntityController → World
set_controller w ch ctl = record w { controllers = update w.controllers ch (some ctl) }

abbrev pub group_of : EntityController → ℕ → Option ℕ
group_of ctl t =
    if t == handover then ctl.handover_group else if t == lock then ctl.lock_group else none

abbrev pub with_group : EntityController → ℕ → ℕ → EntityController
with_group ctl t g =
    if t == handover
    then record ctl { handover_group = some g }
    else if t == lock
    then record ctl { lock_group = some g }
    else ctl

abbrev pub is_nonempty : List ℕ → Bool
is_nonempty [] = false
is_nonempty (x ∷ xs) = true

-- `cascadeGroup`: an entity that is locked stays where it is.
unfoldable pub cascade_group : World → ChanRef → EntityController → ℕ → ℕ → World
unfolding add_ids update
cascade_group w ch ctl t g =
    if is_nonempty (members w ctl.lock_group)
    then w
    else if t == handover
    then set_controller (set_group w g (add_ids (members w ctl.handover_group) (w.groups g))) ch
        (with_group ctl handover g)
    else if t == lock
    then set_controller
        (set_group w g (
          add_ids (members w ctl.lock_group) (add_ids (members w ctl.handover_group) (w.groups g))))
        ch (with_group ctl lock g)
    else w

abbrev pub cascade_to : World → ℕ → ℕ → Option ChanRef → World
cascade_to w t g none = w
cascade_to w t g (some ch) = elim (w.controllers ch) [
  | none ↦ w
  | some ctl ↦ cascade_group w ch ctl t g
]

-- The loop of `AddToGroup` over the entities.
unfoldable pub add_entities : World → ℕ → ℕ → List ℕ → World
unfolding cascade_group get_channel add_id update
add_entities w t g [] = w
add_entities w t g (id ∷ ids) =
    let w' = set_group w g (add_id id (w.groups g)) in
    add_entities (cascade_to w' t g (get_channel w' id)) t g ids

-- `newEntityGroup`, as the group of a controller.
abbrev pub new_group : World → ChanRef → EntityController → ℕ → World
new_group w ch ctl t =
    set_controller (record (set_group w w.next_group []) { next_group = suc w.next_group }) ch
      (with_group ctl t w.next_group)

abbrev pub add_to : World → ChanRef → EntityController → ℕ → List ℕ → Option ℕ → World
add_to w ch ctl t ids (some g) = add_entities w t g ids
add_to w ch ctl t ids none = add_entities (new_group w ch ctl t) t w.next_group ids

-- `AddToGroup`, which returns no error. The loop reads the group of the controller again each time
-- round; it is the same, since a cascade to the controller itself sets this very group.
unfoldable pub add_to_group : World → ChanRef → EntityController → ℕ → List ℕ → World
unfolding add_entities update
add_to_group w ch ctl t ids =
    if t == handover || t == lock then add_to w ch ctl t ids (group_of ctl t) else w

-- What `RemoveFromGroup` ends with.
pub data RemoveResult : Type 0 where
  removed : World → RemoveResult
  no_group panic : RemoveResult

-- The entity's own channel gets a new group. The type assertion panics on a channel that has no
-- controller.
abbrev pub reset_group : World → ℕ → Option ChanRef → Option World
reset_group w t none = some w
reset_group w t (some ch) = elim (w.controllers ch) [
  | none ↦ none
  | some ctl ↦ some (new_group w ch ctl t)
]

-- The loop of `RemoveFromGroup`. The group is that which the controller has at the time.
unfoldable pub remove_entities : World → ChanRef → ℕ → List ℕ → RemoveResult
unfolding delete_id update get_channel
remove_entities w ch t [] = removed w
remove_entities w ch t (id ∷ ids) = elim (w.controllers ch) [
  | none ↦ panic
  | some ctl ↦ elim (group_of ctl t) [
    | none ↦ panic
    | some g ↦ elim (reset_group (set_group w g (delete_id id (w.groups g))) t (get_channel w id)) [
      | none ↦ panic
      | some w' ↦ remove_entities w' ch t ids
    ]
  ]
]

-- `RemoveFromGroup`.
unfoldable pub remove_from_group : World → ChanRef → EntityController → ℕ → List ℕ → RemoveResult
unfolding remove_entities
remove_from_group w ch ctl t ids =
    if t == handover || t == lock
    then elim (group_of ctl t) [ none ↦ no_group | some g ↦ remove_entities w ch t ids ]
    else removed w

-- `Uninitialize`: the entity leaves its groups. Its own channel has a controller, so that the type
-- assertion of `RemoveFromGroup` does not panic as long as the entity's id leads to it.
abbrev pub or_before : World → RemoveResult → World
or_before w (removed w') = w'
or_before w no_group = w
or_before w panic = w

abbrev pub leave_group : ChanRef → ℕ → World → World
leave_group ch t w = elim (w.controllers ch) [
  | none ↦ w
  | some ctl ↦ or_before w (remove_from_group w ch ctl t (ctl.entity_id ∷ []))
]

unfoldable pub uninitialize : World → ChanRef → World
unfolding remove_from_group
uninitialize w ch =
    if (w.chans ch).channel_type == entity_type
    then leave_group ch lock (leave_group ch handover w)
    else w

-- `GetHandoverEntities` of the controller: nobody moves while one of them is locked.
unfoldable pub any_in : List ℕ → List ℕ → Bool
any_in [] ids = false
any_in (x ∷ xs) ids = contains x ids || any_in xs ids

unfoldable pub handover_entities : World → EntityController → List ℕ
unfolding any_in
handover_entities w ctl = elim ctl.handover_group [
  | none ↦ ctl.entity_id ∷ []
  | some g ↦ if any_in (w.groups g) (members w ctl.lock_group) then [] else w.groups g
]
