-- ===== src/Entity/Frame.antt =====
-- What leaving a group changes of the process: the groups and the controllers (pkg/channeld/entity.go).
use channeld.Base.{ℕ, ◌≡◌, refl, ◌∙◌, ap, ◌||◌, Option, none, some, List, [], ◌∷◌, ◌==◌, if-cases}
use channeld.World.Types.{ChanRef, World, EntityController}
use channeld.World.Access.{get_channel, entity_type}
use channeld.Entity.{
  remove_from_group, remove_entities, RemoveResult, removed, no_group, panic, reset_group,
  new_group, set_group, delete_id, group_of, handover, lock, uninitialize, leave_group, or_before,
}

-- All but the groups and the controllers is as it was.
abbrev pub SameOutside : World → World → Type 0
SameOutside w w' =
    w' ≡ record w { groups = w'.groups; controllers = w'.controllers; next_group = w'.next_group }

abbrev Kept : World → RemoveResult → Type 0
Kept w (removed w') = SameOutside w w'
Kept w no_group = Unit {0}
Kept w panic = Unit {0}

abbrev KeptOption : World → Option World → Type 0
KeptOption w none = Unit {0}
KeptOption w (some w') = SameOutside w w'

SameOutside-trans : (u v w : World) → SameOutside u v → SameOutside v w → SameOutside u w
SameOutside-trans u v w h k =
    k
    ∙ ap
        (λ (x : World). record x {
          groups = w.groups;
          controllers = w.controllers;
          next_group = w.next_group;
        })
        h

reset_group-KeptOption :
    (w : World) (g t : ℕ) (ids : List ℕ) (o : Option ChanRef)
    → KeptOption w (reset_group (set_group w g ids) t o)
reset_group-KeptOption w g t ids none = refl
reset_group-KeptOption w g t ids (some ch) = split (w.controllers ch)
  where
    split :
        (o : Option EntityController)
        → KeptOption w (elim o as (λ x. Option World) [
          | none ↦ none
          | some ctl ↦ some (new_group (set_group w g ids) ch ctl t)
        ])
    split none = tt
    split (some ctl) = refl

remove_entities-Kept :
    (w : World) (ch : ChanRef) (t : ℕ) (ids : List ℕ) → Kept w (remove_entities w ch t ids)
unfolding remove_entities
remove_entities-Kept w ch t [] = refl
remove_entities-Kept w ch t (id ∷ ids) =
    controlled (w.controllers ch) (λ w'. remove_entities-Kept w' ch t ids)
  where
    Rest : Type 0
    Rest = (w' : World) → Kept w' (remove_entities w' ch t ids)

    carried : (w' : World) (r : RemoveResult) → SameOutside w w' → Kept w' r → Kept w r
    carried w' (removed v) h k = SameOutside-trans w w' v h k
    carried w' no_group h k = tt
    carried w' panic h k = tt

    one :
        (o : Option World)
        → KeptOption w o
        → Rest
        → Kept w
            (elim o as (λ x. RemoveResult) [ none ↦ panic | some w' ↦ remove_entities w' ch t ids ])
    one none p ih = tt
    one (some w') p ih = carried w' (remove_entities w' ch t ids) p (ih w')

    grouped :
        (o : Option ℕ)
        → Rest
        → Kept w (elim o as (λ x. RemoveResult) [
          | none ↦ panic
          | some g ↦
              elim (reset_group (set_group w g (delete_id id (w.groups g))) t (get_channel w id)) [
                | none ↦ panic
                | some w' ↦ remove_entities w' ch t ids
              ]
        ])
    grouped none ih = tt
    grouped (some g) ih =
        one (reset_group (set_group w g (delete_id id (w.groups g))) t (get_channel w id))
          (reset_group-KeptOption w g t (delete_id id (w.groups g)) (get_channel w id)) ih

    controlled :
        (o : Option EntityController)
        → Rest
        → Kept w (elim o as (λ x. RemoveResult) [
          | none ↦ panic
          | some ctl ↦ elim (group_of ctl t) [
            | none ↦ panic
            | some g ↦
                elim (reset_group
                  (set_group w g (delete_id id (w.groups g)))
                  t
                  (get_channel w id)) [ none ↦ panic | some w' ↦ remove_entities w' ch t ids ]
          ]
        ])
    controlled none ih = tt
    controlled (some ctl) ih = grouped (group_of ctl t) ih

remove_from_group-Kept :
    (w : World) (ch : ChanRef) (ctl : EntityController) (t : ℕ) (ids : List ℕ)
    → Kept w (remove_from_group w ch ctl t ids)
unfolding remove_from_group
remove_from_group-Kept w ch ctl t ids =
    if-cases (Kept w) (t == handover || t == lock) (λ h. split (group_of ctl t)) (λ h. refl)
  where
    split :
        (o : Option ℕ)
        → Kept w (elim o as (λ x. RemoveResult) [
          | none ↦ no_group
          | some g ↦ remove_entities w ch t ids
        ])
    split none = tt
    split (some g) = remove_entities-Kept w ch t ids

leave_group-SameOutside : (ch : ChanRef) (t : ℕ) (w : World) → SameOutside w (leave_group ch t w)
leave_group-SameOutside ch t w = split (w.controllers ch)
  where
    result : (r : RemoveResult) → Kept w r → SameOutside w (or_before w r)
    result (removed w') h = h
    result no_group h = refl
    result panic h = refl

    split :
        (o : Option EntityController)
        → SameOutside w (elim o as (λ x. World) [
          | none ↦ w
          | some ctl ↦ or_before w (remove_from_group w ch ctl t (ctl.entity_id ∷ []))
        ])
    split none = refl
    split (some ctl) =
        result (remove_from_group w ch ctl t (ctl.entity_id ∷ []))
          (remove_from_group-Kept w ch ctl t (ctl.entity_id ∷ []))

pub uninitialize-SameOutside : (w : World) (ch : ChanRef) → SameOutside w (uninitialize w ch)
unfolding uninitialize
uninitialize-SameOutside w ch =
    if-cases (SameOutside w) ((w.chans ch).channel_type == entity_type)
      (λ t.
        SameOutside-trans w (leave_group ch handover w)
          (leave_group ch lock (leave_group ch handover w)) (leave_group-SameOutside ch handover w)
          (leave_group-SameOutside ch lock (leave_group ch handover w)))
      (λ f. refl)

-- The fields that a removal reads afterwards.
pub uninitialize-fields :
    (w : World) (ch : ChanRef)
    → ((uninitialize w ch).all_channels ≡ w.all_channels)
      × ((uninitialize w ch).chans ≡ w.chans)
      × ((uninitialize w ch).next_channel_id ≡ w.next_channel_id)
      × ((uninitialize w ch).next_spatial_channel_id ≡ w.next_spatial_channel_id)
      × ((uninitialize w ch).non_spatial_channel_full ≡ w.non_spatial_channel_full)
      × ((uninitialize w ch).spatial_channel_full ≡ w.spatial_channel_full)
uninitialize-fields w ch =
    let e = uninitialize-SameOutside w ch in
    (
      ap (λ (v : World). v.all_channels) e,
      ap (λ (v : World). v.chans) e,
      ap (λ (v : World). v.next_channel_id) e,
      ap (λ (v : World). v.next_spatial_channel_id) e,
      ap (λ (v : World). v.non_spatial_channel_full) e,
      ap (λ (v : World). v.spatial_channel_full) e,
    )
