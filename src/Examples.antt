-- ===== src/Examples.antt =====
-- A small process for the tests: a server that owns the GLOBAL channel, a client that owns a
-- private channel, a client that only subscribes to it, and a client that is closing.
mod Channels
mod Connections
mod Handling
mod FanOut
mod Machines
mod Wire
mod Accepting
mod Entities
mod Spatial
mod Subscribing
mod Listeners
mod Clients
mod Handovers
mod Interests
use channeld.Base.{
  ℕ, ◌+◌, ◌*◌, length, Bool, true, false, Option, none, some, List, [], ◌∷◌, ◌==◌, leb,
  if◌then◌else◌,
}
use channeld.Base.Int.{ℤ, pos}
use channeld.Fsm.{State, FiniteStateMachine}
use channeld.World.Types.{
  ConnRef, ChanRef, Connection, Channel, ChannelData, ChannelSubscription, FanOutConnection,
  Options, SubOptions, ChannelSettings, Env, World, RecoverHandle, EntityController, MessageContext,
  Message, sender, UpdateMsgBufferElement,
}
use channeld.World.Access.{
  no_settings, server, client, authenticated, closing, global_type, entity_type,
}

abbrev pub private_type : ℕ
private_type = 2

-- One state that allows the message type 8 only, and then stays.
abbrev pub lobby : State
lobby = record {
  name = 108 ∷ [];
  msg_type_whitelist = 56 ∷ [];
  msg_type_blacklist = [];
  allowed_msg_types = (8, true) ∷ [];
  transitions = (8, 0) ∷ [];
}

abbrev pub machine : FiniteStateMachine
machine = record {
  init_state = none;
  states = lobby ∷ [];
  transitions = [];
  current_state = some 0;
  state_name_map = (108 ∷ [], 0) ∷ [];
}

abbrev pub conn_of : ℕ → ℕ → ℕ → Connection
conn_of id t state = record {
  id = id;
  connection_type = t;
  state = state;
  pit = id + 100;
  remote_ip = some (id + 200);
  fsm = machine;
  fsm_disallowed_counter = 0;
  send_queue = [];
  spatial_subscriptions = [];
  recover_handle = none;
  conn_time = 0;
}

abbrev pub conns : ConnRef → Connection
conns c =
    if c == 1
    then conn_of 1 server authenticated
    else if c == 3
    then conn_of 3 client closing
    else conn_of c client authenticated

abbrev pub write_options : Options
write_options = record {
  data_access = 2;
  data_field_masks = [];
  fan_out_interval_ms = 20;
  fan_out_delay_ms = pos 0;
  skip_self_update_fan_out = true;
  skip_first_fan_out = false;
}

abbrev pub some_options : SubOptions
some_options = record {
  data_access = none;
  data_field_masks = [];
  fan_out_interval_ms = some 100;
  fan_out_delay_ms = none;
  skip_self_update_fan_out = none;
  skip_first_fan_out = none;
}

abbrev pub subscription : ChannelSubscription
subscription = record { options = write_options; sub_time = pos 0 }

abbrev pub foc : ConnRef → FanOutConnection
foc c = record {
  conn = c;
  had_first_fan_out = false;
  last_fan_out_time = pos 0;
  last_message_index = 0;
}

abbrev pub first_update : UpdateMsgBufferElement
first_update = record {
  update_msg = 5;
  arrival_time = pos 3;
  sender_conn_id = 2;
  message_index = 1;
}

abbrev pub game_data : ChannelData
game_data = record {
  merge_options = none;
  msg = some 5;
  update_msg_buffer = first_update ∷ [];
  max_fan_out_interval_ms = 20;
  msg_index = 1;
}

abbrev pub chan_of : ℕ → ℕ → ConnRef → Channel
chan_of id t owner = record {
  id = id;
  channel_type = t;
  state = 0;
  owner_connection = some owner;
  subscribed_connections = (1, subscription) ∷ (2, subscription) ∷ [];
  metadata = [];
  channel_data = some game_data;
  latest_data_update_conn_id = 0;
  has_spatial_notifier = false;
  in_msg_queue = [];
  fan_out_queue = foc 1 ∷ foc 2 ∷ [];
  start_time = 0;
  enable_client_broadcast = false;
  removing = 0;
  recoverable_subs = [];
}

-- The GLOBAL channel at address 0, the private one at 1, entities from 8 on.
abbrev pub chans : ChanRef → Channel
chans ch =
    if ch == 0
    then chan_of 0 global_type 1
    else if leb 8 ch
    then chan_of ch entity_type 1
    else chan_of 1 private_type 2

-- Only the owner may act on others in a private channel.
abbrev pub owner_settings : ChannelSettings
owner_settings = record no_settings {
  default_fan_out_interval_ms = 20;
  acl_settings = record { sub = 1; unsub = 1; remove = 1 };
}

abbrev pub env : Env
env = record {
  development = false;
  server_bypass_auth = true;
  server_conn_recoverable = false;
  server_conn_recover_timeout_ms = 0;
  compression_type = 0;
  anti_ddos = true;
  max_failed_auth_attempts = 2;
  max_fsm_disallowed = 2;
  connection_auth_timeout_ms = 0;
  max_connection_id_bits = 8;
  server_fsm = some machine;
  client_fsm = some machine;
  spatial_channel_id_start = 4;
  entity_channel_id_start = 8;
  channel_settings = (global_type, owner_settings) ∷ (private_type, owner_settings) ∷ [];
  has_spatial_controller = false;
  merge_options = λ o s. record o {
    fan_out_interval_ms = elim s.fan_out_interval_ms [ none ↦ o.fan_out_interval_ms | some n ↦ n ];
  };
  pack_size = λ ctx. some 10;
  unmarshal_body = λ t body. none;
  unmarshal_packet = λ body. some [];
  decompress = λ body. some body;
  packet_size = λ ms. 40000 * length ms;
  marshal_packet = λ ms. some (1 ∷ []);
  compress = λ body. body;
  unmarshal_new = λ content. some content;
  new_data_message = λ t. some 0;
  init_message = λ m. m;
  merge_with_options = λ old new options. new;
  merge_into_new = λ m. m;
  filter_fields = λ masks m. elim masks [ [] ↦ m | _ ∷ _ ↦ 0 ];
  wrap_any = λ m. some m;
  auth_provider = none;
}

-- The two channels at the addresses 8 and 9 are entities of one group.
abbrev pub controllers : ChanRef → Option EntityController
controllers ch =
    if leb 8 ch
    then some (record { entity_id = ch; handover_group = some 0; lock_group = none })
    else none

abbrev pub world : World
world = record {
  conns = conns;
  chans = chans;
  handles =
      λ h. record { prev_conn_id = 0; disconn_time = 0; new_conn = none; start_recovery_time = 0 };
  controllers = controllers;
  groups = λ g. if g == 0 then 8 ∷ 9 ∷ [] else [];
  next_group = 1;
  next_conn = 5;
  next_chan = 10;
  next_handle = 0;
  all_connections = (1, 1) ∷ (2, 2) ∷ (4, 4) ∷ [];
  all_channels = (0, 0) ∷ (1, 1) ∷ (8, 8) ∷ (9, 9) ∷ [];
  next_connection_id = 4;
  next_channel_id = 1;
  next_spatial_channel_id = 4;
  non_spatial_channel_full = false;
  spatial_channel_full = false;
  global_channel = some 0;
  server_connections = [];
  recover_handles = [];
  unauthenticated_connections = [];
  failed_auth_counters = (104, 1) ∷ [];
  ip_blacklist = [];
  pit_blacklist = [];
  now = 1000;
  events = [];
}

-- A message from a connection.
abbrev pub from : ConnRef → Message → MessageContext
from c msg = record {
  msg_type = 0;
  msg = msg;
  broadcast = 0;
  stub_id = 7;
  channel_id = 1;
  connection = sender c;
  channel = some 1;
  arrival_time = pos 1000;
}
