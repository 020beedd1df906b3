-- ===== src/Spatial/Handover/Locked.antt =====
-- Entities that do not move (pkg/channeld/spatial.go and pkg/channeld/entity.go).
use channeld.Base.{
  ℕ, ◌≡◌, refl, ◌∙◌, ap, true, some, [], contains, Option-cases, Bool-cases, inl, inr, arith, ◌==◌,
}
use channeld.World.Types.{World, Env, SpatialInfo, ChanRef, EntityController}
use channeld.World.Access.{get_channel, spatial_type}
use channeld.Entity.{handover_entities, members}
use channeld.Entity.Shared.{handover_entities-together}
use channeld.Handlers.Groups.{get_handover_entities}
use channeld.Spatial.{Floats, Grid, get_channel_id}
use channeld.Spatial.Handover.{HandoverEnv, notify, notify_channels}

get_handover_entities-nobody :
    (w : World) (ch : ChanRef) (ctl : EntityController)
    → w.controllers ch ≡ some ctl
    → handover_entities w ctl ≡ []
    → get_handover_entities w ch ≡ some []
unfolding get_handover_entities
get_handover_entities-nobody w ch ctl own nobody = ground (arith, own, nobody)

notify_channels-stays :
    (h : HandoverEnv) (env : Env) (w : World) (src dst entity_ch : ChanRef) (src_id dst_id : ℕ)
    → get_channel w (h.handover_data_provider src_id dst_id) ≡ some entity_ch
    → get_handover_entities w entity_ch ≡ some []
    → notify_channels h env w src dst src_id dst_id ≡ (w, [])
unfolding notify_channels
notify_channels-stays h env w src dst entity_ch src_id dst_id at nobody =
    elim (Option-cases (env.new_data_message spatial_type)) [
      | inl failed ↦ rw (notify_channels, failed) refl
      | inr (m, made) ↦ rw (notify_channels, made, at, nobody) refl
    ]

-- Where the entity that has moved is in a handover group of which a member is in its lock group,
-- no movement hands anything over: no owner changes, no subscription, and no message is sent.
pub notify-locked :
    (h : HandoverEnv) (fl : Floats) (env : Env) (g : Grid) (w : World)
    (old_info new_info : SpatialInfo) (id group x : ℕ) (entity_ch : ChanRef)
    (ctl : EntityController)
    → ((src_id dst_id : ℕ) → h.handover_data_provider src_id dst_id ≡ id)
    → get_channel w id ≡ some entity_ch
    → w.controllers entity_ch ≡ some ctl
    → ctl.handover_group ≡ some group
    → contains x (w.groups group) ≡ true
    → contains x (members w ctl.lock_group) ≡ true
    → notify h fl env g w old_info new_info ≡ (w, [])
unfolding notify
notify-locked h fl env g w old_info new_info id group x entity_ch ctl moved at own grouped member
      locked =
    elim (Option-cases (get_channel_id fl env g old_info)) [
      | inl no_src_id ↦ rw (notify, no_src_id) refl
      | inr (src_id, s) ↦ elim (Option-cases (get_channel_id fl env g new_info)) [
        | inl no_dst_id ↦ rw (notify, s, no_dst_id) refl
        | inr (dst_id, d) ↦ elim (Bool-cases (dst_id == src_id)) [
          | inl same ↦ rw (notify, s, d, same) refl
          | inr other ↦ elim (Option-cases (get_channel w src_id)) [
            | inl no_src ↦ rw (notify, s, d, other, no_src) refl
            | inr (src, s') ↦ elim (Option-cases (get_channel w dst_id)) [
              | inl no_dst ↦ rw (notify, s, d, other, s', no_dst) refl
              | inr (dst, d') ↦ rw (notify, s, d, other, s', d') (stays src dst src_id dst_id)
            ]
          ]
        ]
      ]
    ]
  where
    nobody : get_handover_entities w entity_ch ≡ some []
    nobody =
        get_handover_entities-nobody w entity_ch ctl own
          ((handover_entities-together w ctl group grouped).1 x member locked)

    stays : (src dst : ChanRef) (s t : ℕ) → notify_channels h env w src dst s t ≡ (w, [])
    stays src dst s t =
        notify_channels-stays h env w src dst entity_ch s t
          (ap (λ k. get_channel w k) (moved s t) ∙ at) nobody
