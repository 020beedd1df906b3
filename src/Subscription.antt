-- ===== src/Subscription.antt =====
-- Subscriptions (pkg/channeld/subscription.go). A locked section runs as one step.
pub mod Queue
pub mod RoundTrip
pub mod Refines
use channeld.Base.{
  ℕ, ◌+◌, ◌-◌, ◌*◌, Bool, true, false, not, Option, none, some, List, [], ◌∷◌, ltb, ◌==◌,
  if◌then◌else◌, lookup, insert, remove, keep,
}
use channeld.Base.Int.{ℤ, pos, negsuc, ◌+ℤ◌}
use channeld.World.Types.{
  ConnRef, ChanRef, World, Env, Options, SubOptions, ChannelSubscription, FanOutConnection, Channel,
  ChannelData, MessageContext, Message, sub_to_channel, unsub_from_channel, subscribed,
  unsubscribed,
}
use channeld.World.Access.{
  is_closing, set_conn, set_chan, send, get_time, get_channel_settings, spatial_type,
}

abbrev read_access : ℕ
read_access = 1

-- `defaultSubOptions`.
pub default_sub_options : Env → ℕ → Options
default_sub_options env t = record {
  data_access = read_access;
  data_field_masks = [];
  fan_out_interval_ms = (get_channel_settings env t).default_fan_out_interval_ms;
  fan_out_delay_ms = (get_channel_settings env t).default_fan_out_delay_ms;
  skip_self_update_fan_out = true;
  skip_first_fan_out = false;
}

abbrev pub ns_per_ms : ℕ
ns_per_ms = 1_000_000

-- `ChannelTime.AddMs` and `OffsetMs`: milliseconds in a time that counts nanoseconds.
unfoldable pub add_ms : ℤ → ℕ → ℤ
add_ms t ms = t +ℤ pos (ms * ns_per_ms)

unfoldable pub offset_ms : ℤ → ℤ → ℤ
offset_ms t (pos ms) = t +ℤ pos (ms * ns_per_ms)
offset_ms t (negsuc ms) = t +ℤ negsuc (ms * ns_per_ms + (ns_per_ms - 1))

abbrev pub merged : Env → Options → Option SubOptions → Options
merged env o none = o
merged env o (some s) = env.merge_options o s

-- The longest interval of any subscriber, which the trimming of the update buffer looks at.
abbrev pub with_interval : ℕ → Option ChannelData → Option ChannelData
with_interval ms none = none
with_interval ms (some d) =
    some (if ltb d.max_fan_out_interval_ms ms then record d { max_fan_out_interval_ms = ms } else d)

-- A subscription of a connection that has none: it goes to the front of the fan-out queue.
unfoldable pub new_subscription :
    Env → World → ConnRef → ChanRef → Option SubOptions → World × ChannelSubscription
unfolding default_sub_options insert set_conn set_chan
new_subscription env w c ch options =
    let chan = w.chans ch in
    let o = merged env (default_sub_options env chan.channel_type) options in
    let cs : ChannelSubscription = record { options = o; sub_time = get_time w ch } in
    let foc : FanOutConnection = record {
      conn = c;
      had_first_fan_out = o.skip_first_fan_out;
      last_fan_out_time = offset_ms (get_time w ch) o.fan_out_delay_ms;
      last_message_index = 0;
    } in
    let w' = set_chan w ch (record chan {
      fan_out_queue = foc ∷ chan.fan_out_queue;
      channel_data = with_interval o.fan_out_interval_ms chan.channel_data;
      subscribed_connections = insert c cs chan.subscribed_connections;
    }) in
    (
      if chan.channel_type == spatial_type
          then set_conn w' c (record (w'.conns c) {
            spatial_subscriptions = insert chan.id ch (w'.conns c).spatial_subscriptions;
          })
          else w',
      cs,
    )

-- A connection that is subscribed already: the options are merged.
unfoldable pub merge_subscription :
    Env
    → World
    → ConnRef
    → ChanRef
    → ChannelSubscription
    → Option SubOptions
    → World × Option ChannelSubscription × Bool
unfolding insert set_chan
merge_subscription env w c ch cs none = (w, some cs, false)
merge_subscription env w c ch cs (some s) =
    let cs' = record cs { options = env.merge_options cs.options s } in
    (
      set_chan w ch (record (w.chans ch) {
        subscribed_connections = insert c cs' (w.chans ch).subscribed_connections;
      }),
      some cs',
      not (cs.options.data_access == cs'.options.data_access),
    )

-- `Connection.SubscribeToChannel`: the subscription, and whether a message about it is to be sent.
unfoldable pub subscribe_to_channel :
    Env → World → ConnRef → ChanRef → Option SubOptions → World × Option ChannelSubscription × Bool
unfolding merge_subscription new_subscription lookup
subscribe_to_channel env w c ch options =
    if is_closing w c
    then (w, none, false)
    else elim (lookup c (w.chans ch).subscribed_connections) [
      | some cs ↦ merge_subscription env w c ch cs options
      | none ↦ let (w', cs) = new_subscription env w c ch options in (w', some cs, true)
    ]

-- `fanOutQueue.Remove` of the one element that the subscription points to.
unfoldable pub remove_element : ConnRef → List FanOutConnection → List FanOutConnection
remove_element c [] = []
remove_element c (foc ∷ q) = if foc.conn == c then q else foc ∷ remove_element c q

-- `Connection.UnsubscribeFromChannel`: the options of the subscription, or an error.
unfoldable pub unsubscribe_from_channel : World → ConnRef → ChanRef → World × Option Options
unfolding remove remove_element set_chan set_conn lookup
unsubscribe_from_channel w c ch = elim (lookup c (w.chans ch).subscribed_connections) [
  | none ↦ (w, none)
  | some cs ↦
      let chan = w.chans ch in
      let w' = set_chan w ch (record chan {
        fan_out_queue = remove_element c chan.fan_out_queue;
        subscribed_connections = remove c chan.subscribed_connections;
      }) in
      (
        if chan.channel_type == spatial_type
            then set_conn w' c (record (w'.conns c) {
              spatial_subscriptions = remove chan.id (w'.conns c).spatial_subscriptions;
            })
            else w',
        some cs.options,
      )
]

abbrev pub sub_to_channel_type : ℕ
sub_to_channel_type = 6

abbrev pub unsub_from_channel_type : ℕ
unsub_from_channel_type = 7

-- `Connection.sendSubscribed`.
unfoldable pub send_subscribed :
    Env → World → ConnRef → MessageContext → ChanRef → ConnRef → ℕ → Options → World
send_subscribed env w c ctx ch conn_to_sub stub_id options = send env w c (record ctx {
  channel_id = (w.chans ch).id;
  stub_id = stub_id;
  msg_type = sub_to_channel_type;
  msg =
      subscribed (w.conns conn_to_sub).id options (w.conns conn_to_sub).connection_type
        (w.chans ch).channel_type;
})

abbrev pub or_self : ConnRef → Option ConnRef → ConnRef
or_self c none = c
or_self c (some d) = d

-- `Connection.sendUnsubscribed`: without a connection the receiver stands for it.
unfoldable pub send_unsubscribed :
    Env → World → ConnRef → MessageContext → ChanRef → Option ConnRef → ℕ → World
send_unsubscribed env w c ctx ch conn_to_unsub stub_id = send env w c (record ctx {
  channel_id = (w.chans ch).id;
  stub_id = stub_id;
  msg_type = unsub_from_channel_type;
  msg =
      unsubscribed (w.conns (or_self c conn_to_unsub)).id
        (w.conns (or_self c conn_to_unsub)).connection_type (w.chans ch).channel_type;
})

-- `Connection.HasInterestIn`.
unfoldable pub has_interest_in : World → ConnRef → ℕ → Bool
unfolding lookup
has_interest_in w c id = elim (lookup id (w.conns c).spatial_subscriptions) [
  | none ↦ false
  | some _ ↦ true
]
