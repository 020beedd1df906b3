-- ===== src/Handlers/Update.antt =====
-- `handleChannelDataUpdate` (pkg/channeld/message.go).
pub mod Writers
use channeld.Base.{
  ℕ, Bool, true, false, not, ◌&&◌, ◌||◌, Option, none, some, ◌==◌, opt_eq, if◌then◌else◌, lookup,
}
use channeld.World.Types.{
  ConnRef, ChanRef, World, Env, Channel, ChannelData, MessageContext, Message, channel_data_update,
  ChannelSubscription,
}
use channeld.World.Access.{set_chan, get_owner, is_live, server, client}
use channeld.Data.{on_update}

abbrev pub write_access : ℕ
write_access = 2

abbrev pub can_write : Option ChannelSubscription → Bool
can_write none = false
can_write (some cs) = cs.options.data_access == write_access

-- The connection in whose name the update is made, if it may be made at all: the owner, a
-- subscriber with write access, or the live owner in place of another server.
unfoldable pub updater : World → ConnRef → ChanRef → Option ConnRef
unfolding lookup
updater w c ch =
    if opt_eq (get_owner w ch) (some c)
    then some c
    else if can_write (lookup c (w.chans ch).subscribed_connections)
    then some c
    else if (w.conns c).connection_type == server && is_live w (get_owner w ch)
    then get_owner w ch
    else none

-- `SetDataUpdateConnId`, in a channel that has a spatial notifier.
abbrev pub context_conn_id : World → Channel → ConnRef → ℕ → ℕ
context_conn_id w chan c context_id =
    if chan.has_spatial_notifier
    then if (w.conns c).connection_type == client then (w.conns c).id else context_id
    else chan.latest_data_update_conn_id

pub apply_update : Env → World → MessageContext → ConnRef → ChanRef → ChannelData → World
unfolding set_chan
apply_update env w ctx c ch d = elim ctx.msg [
  | channel_data_update content context_id ↦ elim (env.unmarshal_new content) [
    | none ↦ w
    | some update_msg ↦ set_chan w ch (record (w.chans ch) {
      latest_data_update_conn_id = context_conn_id w (w.chans ch) c context_id;
      channel_data = some (on_update env d update_msg ctx.arrival_time (w.conns c).id);
    })
  ]
  | _ ↦ w
]

unfoldable pub handle_update : Env → World → MessageContext → ConnRef → ChanRef → World
unfolding apply_update updater
handle_update env w ctx c ch = elim (updater w c ch) [
  | none ↦ w
  | some author ↦ elim (w.chans ch).channel_data [
    | none ↦ w
    | some d ↦ apply_update env w ctx author ch d
  ]
]
