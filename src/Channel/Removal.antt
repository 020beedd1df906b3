-- ===== src/Channel/Removal.antt =====
-- What the removal of a channel leaves (`RemoveChannel` of pkg/channeld/channel.go).
use channeld.Base.{
  ℕ, ◌≤◌, ◌<◌, ◌≡◌, ◌≢◌, ◌⊎◌, true, none, arith, ◌==◌, if◌then◌else◌, lookup-remove, update,
}
use channeld.World.Types.{channel_removing, ChanRef, World, Env, MessageContext, Handler}
use channeld.Entity.{uninitialize}
use channeld.Entity.Frame.{uninitialize-fields}
use channeld.World.Access.{broadcast_event, spatial_type, entity_type, get_channel, is_removing}
use channeld.Channel.{remove_channel_ref, put_message_context}
use channeld.Channel.Ids.{RangesValid, StartsValid, RangeFull}

-- The ids that channels of a type have.
abbrev pub HasIdOfType : Env → ℕ → ℕ → Type 0
HasIdOfType env t id =
    if t == spatial_type
    then (env.spatial_channel_id_start ≤ id) × (id < env.entity_channel_id_start)
    else if t == entity_type
    then env.entity_channel_id_start ≤ id
    else id < env.spatial_channel_id_start

-- The cached marks tell the truth.
pub record MarksHonest (env : Env) (w : World) : Type 0 where
  pub non_spatial : w.non_spatial_channel_full ≡ true → RangeFull w 1 env.spatial_channel_id_start
  pub spatial :
      w.spatial_channel_full ≡ true
      → RangeFull w env.spatial_channel_id_start env.entity_channel_id_start

module _ (env : Env) (w : World) (ch : ChanRef) where
  pub remove_channel_ref-lookup :
      (j : ℕ)
      → get_channel (remove_channel_ref w ch) j
        ≡ (if (w.chans ch).id == j then none else get_channel w j)
  unfolding remove_channel_ref get_channel update
  remove_channel_ref-lookup j = ground (
    arith,
    lookup-remove (w.chans ch).id j w.all_channels,
    uninitialize-fields (broadcast_event w (channel_removing ch)) ch,
  )

  -- After the removal of a channel its id leads nowhere and every other id leads where it led, and
  -- a message that is put to the removed channel is dropped.
  remove_channel_ref-gone :
      (ctx : MessageContext) (handler : Handler)
      → let w' = remove_channel_ref w ch in
        (get_channel w' (w.chans ch).id ≡ none)
        × ((j : ℕ) → j ≢ (w.chans ch).id → get_channel w' j ≡ get_channel w j)
        × (put_message_context w' ch ctx handler ≡ w')
  unfolding put_message_context remove_channel_ref is_removing update
  remove_channel_ref-gone ctx handler = (
    ground (arith, remove_channel_ref-lookup (w.chans ch).id),
    (λ j ne. ground (arith, remove_channel_ref-lookup j, ne)),
    ground (arith, uninitialize-fields (broadcast_event w (channel_removing ch)) ch),
  )

  in_use-kept :
      (lo hi : ℕ)
      → ((w.chans ch).id < lo) ⊎ (hi ≤ (w.chans ch).id)
      → RangeFull w lo hi
      → RangeFull (remove_channel_ref w ch) lo hi
  unfolding get_channel
  in_use-kept lo hi outside full k above below =
      ground (arith, remove_channel_ref-lookup k, full k above below)

  -- A removal keeps the starts of the id searches in their ranges and the marks of full ranges
  -- honest, for a channel whose id is of the range of its type.
  pub remove_channel_ref-MarksHonest :
      RangesValid env
      → StartsValid env w
      → MarksHonest env w
      → HasIdOfType env (w.chans ch).channel_type (w.chans ch).id
      → StartsValid env (remove_channel_ref w ch) × MarksHonest env (remove_channel_ref w ch)
  unfolding remove_channel_ref get_channel
  remove_channel_ref-MarksHonest ranges starts marks typed = (
    starts_after,
    record {
      non_spatial = λ marked.
          in_use-kept 1 env.spatial_channel_id_start (ground arith)
            (marks.non_spatial (ground (arith, fields)));
      spatial = λ marked.
          in_use-kept env.spatial_channel_id_start env.entity_channel_id_start (ground arith)
            (marks.spatial (ground (arith, fields)));
    },
  )
    where
      fields :
          let v = broadcast_event w (channel_removing ch) in
          ((uninitialize v ch).all_channels ≡ w.all_channels)
          × ((uninitialize v ch).chans ≡ w.chans)
          × ((uninitialize v ch).next_channel_id ≡ w.next_channel_id)
          × ((uninitialize v ch).next_spatial_channel_id ≡ w.next_spatial_channel_id)
          × ((uninitialize v ch).non_spatial_channel_full ≡ w.non_spatial_channel_full)
          × ((uninitialize v ch).spatial_channel_full ≡ w.spatial_channel_full)
      fields = uninitialize-fields (broadcast_event w (channel_removing ch)) ch

      starts_after : StartsValid env (remove_channel_ref w ch)
      starts_after = ground (
        arith,
        fields,
        remove_channel_ref-lookup (w.chans ch).id,
        remove_channel_ref-lookup w.next_channel_id,
      )
