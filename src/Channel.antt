-- ===== src/Channel.antt =====
-- Creating, removing and broadcasting on channels (pkg/channeld/channel.go).
pub mod Ids
pub mod Broadcast
pub mod Removal
pub mod Ticks
pub mod Recovering
pub mod Waiting
use channeld.Base.{
  ℕ, suc, ◌+◌, ◌-◌, ◌%◌, Bool, true, false, not, ◌&&◌, ◌||◌, Option, none, some, List, [], ◌∷◌,
  ◌++◌, ◌==◌, opt_eq, if◌then◌else◌, insert, remove, has_key, is_some, update,
}
use channeld.Ids.{u32_mod, get_next_id}
use channeld.Entity.{uninitialize}
use channeld.World.Types.{
  EntityController, ConnRef, ChanRef, World, Env, Channel, ChannelSubscription, MessageContext,
  Sender, no_sender, nil_sender, sender, channel_created, channel_removing, channel_removed,
  ChannelInfo, remove_channel, channel_owner_lost, Handler, handle_remove_channel,
  RecoverableSubscription,
}
use channeld.World.Access.{
  is_live, set_chan, set_owner, send, broadcast_event, is_removing, get_time, check, is_sender,
  is_closing, get_owner, global_type, spatial_type, entity_type, client, server, all_but_sender,
  all_but_owner, all_but_client, all_but_server, get_channel_settings,
}

-- `ChannelState`.
abbrev pub init_state : ℕ
init_state = 0

abbrev pub open_state : ℕ
open_state = 1

-- The controller of an entity channel, as `Initialize` leaves it.
abbrev pub new_controller : ℕ → ℕ → Option EntityController
new_controller t id =
    if t == entity_type
    then some (record { entity_id = id; handover_group = none; lock_group = none })
    else none

-- `createChannelWithId`.
unfoldable pub create_channel_with_id : Env → World → ℕ → ℕ → Option ConnRef → World × ChanRef
unfolding insert set_chan broadcast_event update
create_channel_with_id env w id t owner =
    let ch = w.next_chan in
    let chan : Channel = record {
      id = id;
      channel_type = t;
      state = if is_live w owner then open_state else init_state;
      owner_connection = owner;
      subscribed_connections = [];
      metadata = [];
      channel_data = none;
      latest_data_update_conn_id = 0;
      has_spatial_notifier = t == entity_type && env.has_spatial_controller;
      in_msg_queue = [];
      fan_out_queue = [];
      start_time = w.now;
      enable_client_broadcast = false;
      removing = 0;
      recoverable_subs = [];
    } in
    (
      broadcast_event
          (record (set_chan w ch chan) {
            next_chan = suc ch;
            all_channels = insert id ch w.all_channels;
          })
          (channel_created ch),
      ch,
    )

pub data CreateError : Type 0 where
  global_channel_exists spatial_channel_full non_spatial_channel_full : CreateError

-- `stuck` stands for a search for an id that has not ended.
pub data CreateResult : Type 0 where
  created : World → ChanRef → CreateResult
  failed : World → CreateError → CreateResult
  stuck : CreateResult

-- The last id below a start, in `uint32`.
abbrev pub below_start : ℕ → ℕ
below_start start = (start + u32_mod - 1) % u32_mod

abbrev pub in_use : World → ℕ → Bool
in_use w id = has_key id w.all_channels

pub create_spatial : Env → World → ℕ → Option ConnRef → Option (ℕ × Bool) → CreateResult
unfolding create_channel_with_id
create_spatial env w t owner none = stuck
create_spatial env w t owner (some (id, true)) =
    let (w', ch) =
      create_channel_with_id env (record w { next_spatial_channel_id = id }) id t owner in
    created w' ch
create_spatial env w t owner (some (id, false)) =
    failed (record w { spatial_channel_full = true }) spatial_channel_full

pub create_non_spatial : Env → World → ℕ → Option ConnRef → Option (ℕ × Bool) → CreateResult
unfolding create_channel_with_id
create_non_spatial env w t owner none = stuck
create_non_spatial env w t owner (some (id, true)) =
    let (w', ch) = create_channel_with_id env (record w { next_channel_id = id }) id t owner in
    created w' ch
create_non_spatial env w t owner (some (id, false)) =
    failed (record w { non_spatial_channel_full = true }) non_spatial_channel_full

-- `CreateChannel`.
unfoldable pub create_channel : Env → World → ℕ → Option ConnRef → CreateResult
unfolding create_spatial create_non_spatial
create_channel env w t owner =
    if t == global_type && is_some w.global_channel
    then failed w global_channel_exists
    else if t == spatial_type
    then if w.spatial_channel_full
      then failed w spatial_channel_full
      else create_spatial env w t owner (
          get_next_id (in_use w) w.next_spatial_channel_id env.spatial_channel_id_start
            (below_start env.entity_channel_id_start))
    else if w.non_spatial_channel_full
    then failed w non_spatial_channel_full
    else create_non_spatial env w t owner
        (get_next_id (in_use w) w.next_channel_id 1 (below_start env.spatial_channel_id_start))

-- The part of `RemoveChannel` that resets the cached status of the id ranges.
pub reset_full : ℕ → ℕ → World → World
reset_full t id w =
    if t == spatial_type
    then record w { spatial_channel_full = false; next_spatial_channel_id = id }
    else if t == entity_type
    then w
    else record w { non_spatial_channel_full = false; next_channel_id = id }

-- `RemoveChannel`, without the two steps that touch nothing in `World`: the channel of the queue is
-- closed, and the listener that an entity channel may have on `Event_AuthComplete` (a list of its own,
-- in Events) is taken off.
unfoldable pub remove_channel_ref : World → ChanRef → World
unfolding reset_full broadcast_event remove set_chan
remove_channel_ref w ch =
    let w₁ = uninitialize (broadcast_event w (channel_removing ch)) ch in
    let w₂ = set_chan w₁ ch (record (w₁.chans ch) { removing = suc (w₁.chans ch).removing }) in
    let w₃ = record w₂ { all_channels = remove (w.chans ch).id w₂.all_channels } in
    broadcast_event (reset_full (w.chans ch).channel_type (w.chans ch).id w₃)
      (channel_removed (w.chans ch).id)

-- `PutMessage` and `PutMessageContext`: nothing is queued on a channel that is being removed.
unfoldable pub put_message_context : World → ChanRef → MessageContext → Handler → World
unfolding is_removing set_chan
put_message_context w ch ctx handler =
    if is_removing w ch
    then w
    else set_chan w ch
        (record (w.chans ch) { in_msg_queue = (w.chans ch).in_msg_queue ++ (ctx, handler) ∷ [] })

-- The tests of `Broadcast` that leave a connection out.
unfoldable pub skipped : World → ChanRef → MessageContext → ConnRef → Bool
skipped w ch ctx c =
    (check all_but_sender ctx.broadcast && is_sender ctx.connection c)
    || (check all_but_owner ctx.broadcast && opt_eq (get_owner w ch) (some c))
    || (check all_but_client ctx.broadcast && (w.conns c).connection_type == client)
    || (check all_but_server ctx.broadcast && (w.conns c).connection_type == server)

-- `Broadcast`, over the subscribed connections in the order of the map.
unfoldable pub broadcast_to :
    Env → World → ChanRef → MessageContext → List (ConnRef × ChannelSubscription) → World
broadcast_to env w ch ctx [] = w
broadcast_to env w ch ctx ((c, cs) ∷ rest) =
    broadcast_to env (if skipped w ch ctx c then w else send env w c ctx) ch ctx rest

unfoldable pub broadcast : Env → World → ChanRef → MessageContext → World
unfolding broadcast_to
broadcast env w ch ctx = broadcast_to env w ch ctx (w.chans ch).subscribed_connections
