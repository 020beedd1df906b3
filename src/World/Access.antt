-- ===== src/World/Access.antt =====
-- What every handler uses: the state of a connection, the lookups by id, owners, and `Send`
-- (connection.go, channel.go and event.go of pkg/channeld).
use Prim.Native.Nat.{bit_and}
use channeld.Base.{
  ℕ, ◌-◌, Bool, true, false, not, ◌&&◌, ◌||◌, Option, none, some, [], ◌∷◌, ◌++◌, ltb, leb, ◌==◌,
  opt_eq, if◌then◌else◌, lookup, update,
}
use channeld.Base.Int.{ℤ, pos, sub_ℕ}
use channeld.World.Types.{
  ConnRef, ChanRef, Connection, Channel, World, Env, Event, MessageContext, Sender, no_sender,
  nil_sender, sender, ChannelSettings,
}

abbrev pub max_packet_size : ℕ
max_packet_size = 65535

abbrev pub packet_header_size : ℕ
packet_header_size = 5

abbrev pub unauthenticated : ℕ
unauthenticated = 0

abbrev pub authenticated : ℕ
authenticated = 1

abbrev pub closing : ℕ
closing = 2

-- `ConnectionType`.
abbrev pub server : ℕ
server = 1

abbrev pub client : ℕ
client = 2

-- `ChannelType`.
abbrev pub unknown_type : ℕ
unknown_type = 0

abbrev pub global_type : ℕ
global_type = 1

abbrev pub spatial_type : ℕ
spatial_type = 4

abbrev pub entity_type : ℕ
entity_type = 5

-- `BroadcastType`.
abbrev pub no_broadcast : ℕ
no_broadcast = 0

abbrev pub single_connection : ℕ
single_connection = 1

abbrev pub all : ℕ
all = 2

abbrev pub all_but_sender : ℕ
all_but_sender = 4

abbrev pub all_but_owner : ℕ
all_but_owner = 8

abbrev pub all_but_client : ℕ
all_but_client = 16

abbrev pub all_but_server : ℕ
all_but_server = 32

abbrev pub adjacent_channels : ℕ
adjacent_channels = 64

-- `BroadcastType.Check`.
unfoldable pub check : ℕ → ℕ → Bool
check broadcast value = ltb 0 (bit_and value broadcast)

-- `Connection.IsClosing`.
unfoldable pub is_closing : World → ConnRef → Bool
is_closing w c = leb closing (w.conns c).state

unfoldable pub set_conn : World → ConnRef → Connection → World
unfolding update
set_conn w c conn = record w { conns = update w.conns c conn }

unfoldable pub set_chan : World → ChanRef → Channel → World
unfolding update
set_chan w ch chan = record w { chans = update w.chans ch chan }

-- `queuedMessagePackSender.Send`, which checks the size and the state before it queues the pack.
unfoldable pub queue_message : Env → World → ConnRef → MessageContext → World
unfolding set_conn is_closing
queue_message env w c ctx = elim (env.pack_size ctx) [
  | none ↦ w
  | some size ↦
      if leb (max_packet_size - packet_header_size) size
      then w
      else if is_closing w c
      then w
      else set_conn w c (record (w.conns c) { send_queue = (w.conns c).send_queue ++ ctx ∷ [] })
]

-- `Connection.Send`.
unfoldable pub send : Env → World → ConnRef → MessageContext → World
unfolding queue_message
send env w c ctx = if is_closing w c then w else queue_message env w c ctx

-- `GetChannel` and `GetConnection`.
unfoldable pub get_channel : World → ℕ → Option ChanRef
unfolding lookup
get_channel w id = lookup id w.all_channels

unfoldable pub get_connection : World → ℕ → Option ConnRef
unfolding lookup is_closing
get_connection w id = elim (lookup id w.all_connections) [
  | none ↦ none
  | some c ↦ if is_closing w c then none else some c
]

-- `Channel.GetOwner`, `SetOwner` and `HasOwner`.
abbrev pub get_owner : World → ChanRef → Option ConnRef
get_owner w ch = (w.chans ch).owner_connection

unfoldable pub set_owner : World → ChanRef → Option ConnRef → World
unfolding set_chan
set_owner w ch owner = set_chan w ch (record (w.chans ch) { owner_connection = owner })

-- An owner that is there and not closing.
unfoldable pub is_live : World → Option ConnRef → Bool
unfolding is_closing
is_live w none = false
is_live w (some c) = not (is_closing w c)

unfoldable pub has_owner : World → ChanRef → Bool
unfolding is_live
has_owner w ch = is_live w (get_owner w ch)

-- `Channel.IsSameOwner`.
unfoldable pub is_same_owner : World → ChanRef → ChanRef → Bool
unfolding is_live
is_same_owner w a b = is_live w (get_owner w a) && opt_eq (get_owner w a) (get_owner w b)

-- `Connection.HasAuthorityOver`.
unfoldable pub has_authority_over : World → ConnRef → ChanRef → Bool
has_authority_over w c ch =
    opt_eq (elim w.global_channel [ none ↦ none | some g ↦ get_owner w g ]) (some c)
    || opt_eq (get_owner w ch) (some c)

-- `Channel.SendToOwner`, with what it returns.
unfoldable pub send_to_owner : Env → World → ChanRef → MessageContext → World × Bool
unfolding send
send_to_owner env w ch ctx = elim (get_owner w ch) [
  | none ↦ (w, false)
  | some owner ↦ if is_closing w owner then (w, false) else (send env w owner ctx, true)
]

-- `conn == ctx.Connection`.
abbrev pub is_sender : Sender → ConnRef → Bool
is_sender no_sender c = false
is_sender nil_sender c = false
is_sender (sender s) c = s == c

-- `MessageContext.HasConnection`.
unfoldable pub has_connection : World → MessageContext → Bool
unfolding is_closing
has_connection w ctx = elim ctx.connection [
  | no_sender ↦ false
  | nil_sender ↦ false
  | sender c ↦ not (is_closing w c)
]

unfoldable pub broadcast_event : World → Event → World
broadcast_event w e = record w { events = w.events ++ e ∷ [] }

-- `Channel.IsRemoving`.
unfoldable pub is_removing : World → ChanRef → Bool
is_removing w ch = ltb 0 (w.chans ch).removing

-- `Channel.GetTime`, in nanoseconds since the channel was created.
unfoldable pub get_time : World → ChanRef → ℤ
get_time w ch = sub_ℕ w.now (w.chans ch).start_time

abbrev pub no_settings : ChannelSettings
no_settings = record {
  tick_interval_ms = 0;
  default_fan_out_interval_ms = 0;
  default_fan_out_delay_ms = pos 0;
  remove_channel_after_owner_removed = false;
  send_owner_lost_and_recovered = false;
  acl_settings = record { sub = 0; unsub = 0; remove = 0 };
}

abbrev pub or_no_settings : Option ChannelSettings → ChannelSettings
or_no_settings none = no_settings
or_no_settings (some s) = s

-- `GlobalSettings.GetChannelSettings`: those of the GLOBAL type stand in for a missing entry.
unfoldable pub get_channel_settings : Env → ℕ → ChannelSettings
unfolding lookup
get_channel_settings env t = elim (lookup t env.channel_settings) [
  | none ↦ or_no_settings (lookup global_type env.channel_settings)
  | some s ↦ s
]
