-- ===== src/Channel/Ticks.antt =====
-- The clean-up of connections that have closed (`tickConnections` of pkg/channeld/channel.go).
pub mod Cleared
use channeld.Base.{
  ℕ, suc, Bool, true, false, not, ◌&&◌, Option, none, some, List, [], ◌∷◌, ◌==◌, opt_eq,
  if◌then◌else◌, lookup, insert, remove,
}
use channeld.Base.Int.{pos, ◌+ℤ◌}
use channeld.World.Types.{
  ConnRef, ChanRef, World, Env, MessageContext, ChannelSubscription, HandleRef, channel_owner_lost,
  nil_sender, no_sender, remove_channel, handle_remove_channel, global_channel_unpossessed,
}
use channeld.World.Access.{
  is_closing, set_chan, set_owner, get_owner, get_time, get_channel_settings, broadcast_event,
  global_type, all_but_owner,
}
use channeld.Subscription.{send_unsubscribed}
use channeld.Channel.{broadcast, put_message_context}

abbrev pub owner_lost_type : ℕ
owner_lost_type = 22

-- The message that tells of a lost owner.
abbrev pub owner_lost : ℕ → MessageContext
owner_lost id = record {
  msg_type = owner_lost_type;
  msg = channel_owner_lost;
  broadcast = all_but_owner;
  stub_id = 0;
  channel_id = id;
  connection = no_sender;
  channel = none;
  arrival_time = pos 0;
}

-- The subscription of a connection that can recover is kept aside.
abbrev pub keep_subscription :
    World → ChanRef → ConnRef → HandleRef → Option ChannelSubscription → World
keep_subscription w ch c h none = w
keep_subscription w ch c h (some cs) = set_chan w ch (record (w.chans ch) {
  recoverable_subs =
      insert (w.conns c).pit
        (record {
          conn_handle = h;
          is_owner = opt_eq (get_owner w ch) (some c);
          old_sub_time = pos (w.chans ch).start_time +ℤ cs.sub_time;
          old_sub_options = cs.options;
        })
        (w.chans ch).recoverable_subs;
})

-- A closing connection that can recover.
pub set_aside : Env → World → ChanRef → ConnRef → Option HandleRef → World
unfolding insert lookup broadcast get_channel_settings set_chan
set_aside env w ch c none = w
set_aside env w ch c (some h) =
    let w' = keep_subscription w ch c h (lookup c (w.chans ch).subscribed_connections) in
    if opt_eq (get_owner w ch) (some c)
      && (get_channel_settings env (w.chans ch).channel_type).send_owner_lost_and_recovered
    then broadcast env w' ch (owner_lost (w.chans ch).id)
    else w'

-- `removeChannelAfterOwnerRemoved`: the GLOBAL channel gets a message from a nil connection.
unfoldable pub remove_after_owner : World → ChanRef → World
unfolding put_message_context get_time set_chan
remove_after_owner w ch =
    let w' = set_chan w ch (record (w.chans ch) { removing = suc (w.chans ch).removing }) in
    elim w'.global_channel [
      | none ↦ w'
      | some g ↦
          if ch == g
          then w'
          else put_message_context w' g
              (record {
                msg_type = 0;
                msg = remove_channel (w.chans ch).id;
                broadcast = 0;
                stub_id = 0;
                channel_id = 0;
                connection = nil_sender;
                channel = some g;
                arrival_time = get_time w' g;
              })
              handle_remove_channel
    ]

abbrev pub drop_subscription : World → ChanRef → ConnRef → World
drop_subscription w ch c =
    set_chan w ch (record (w.chans ch) {
      subscribed_connections = remove c (w.chans ch).subscribed_connections;
    })

abbrev pub unpossess : World → ChanRef → World
unpossess w ch =
    if (w.chans ch).channel_type == global_type
    then broadcast_event w global_channel_unpossessed
    else w

abbrev pub can_recover : Option HandleRef → Bool
can_recover none = false
can_recover (some h) = true

-- The owner has closed; whether the loop ends with the removal of the channel.
pub after_owner : Env → World → ChanRef → Option HandleRef → World × Bool
unfolding remove_after_owner set_owner get_channel_settings broadcast_event
after_owner env w ch h =
    let w' = unpossess (set_owner w ch none) ch in
    if (get_channel_settings env (w.chans ch).channel_type).remove_channel_after_owner_removed
      && not (can_recover h)
    then (remove_after_owner w' ch, true)
    else (w', false)

-- `MessageContext{}`, of which only what `sendUnsubscribed` fills in is read.
abbrev pub no_context : MessageContext
no_context = record {
  msg_type = 0;
  msg = channel_owner_lost;
  broadcast = 0;
  stub_id = 0;
  channel_id = 0;
  connection = no_sender;
  channel = none;
  arrival_time = pos 0;
}

abbrev pub tell_owner : Env → World → ChanRef → ConnRef → Option ConnRef → World
tell_owner env w ch c none = w
tell_owner env w ch c (some owner) = send_unsubscribed env w owner no_context ch (some c) 0

-- One closing connection.
pub clear_connection : Env → World → ChanRef → ConnRef → World × Bool
unfolding set_aside after_owner remove set_chan send_unsubscribed
clear_connection env w ch c =
    let w' = drop_subscription (set_aside env w ch c (w.conns c).recover_handle) ch c in
    if opt_eq (get_owner w' ch) (some c)
    then after_owner env w' ch (w.conns c).recover_handle
    else (tell_owner env w' ch c (get_owner w' ch), false)

abbrev pub visit_connection : Env → World → ChanRef → ConnRef → World × Bool
visit_connection env w ch c = if is_closing w c then clear_connection env w ch c else (w, false)

-- The loop over the keys of the map as they were at its start; the flag says whether it stopped.
unfoldable pub tick_from_key :
    Env → ChanRef → List (ConnRef × ChannelSubscription) → World × Bool → World × Bool
unfolding clear_connection is_closing
tick_from_key env ch [] r = r
tick_from_key env ch ((c, cs) ∷ rest) (w, true) = (w, true)
tick_from_key env ch ((c, cs) ∷ rest) (w, false) =
    tick_from_key env ch rest (visit_connection env w ch c)

-- `tickConnections`.
unfoldable pub tick_connections : Env → World → ChanRef → World × Bool
unfolding tick_from_key
tick_connections env w ch = tick_from_key env ch (w.chans ch).subscribed_connections (w, false)
