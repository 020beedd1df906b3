-- ===== src/World/Types.antt =====
-- The data of pkg/channeld: connections, channels, subscriptions, messages and the state of the
-- process. Pointers are addresses (numbers) into two heaps. Enumerations of the protocol are
-- numbers, as in pkg/channeldpb/channeld.pb.go, where any value may arrive from the wire.
use channeld.Base.{ℕ, Bool, Option, List}
use channeld.Base.Int.{ℤ}
use channeld.Fsm.{FiniteStateMachine}

-- Addresses of `Connection`, `Channel` and `connectionRecoverHandle` objects.
abbrev pub ConnRef : Type 0
ConnRef = ℕ

abbrev pub ChanRef : Type 0
ChanRef = ℕ

abbrev pub HandleRef : Type 0
HandleRef = ℕ

-- `ChannelSubscriptionOptions` as it arrives: every field may be unset.
pub record SubOptions : Type 0 where
  pub data_access : Option ℕ
  pub data_field_masks : List ℕ
  pub fan_out_interval_ms : Option ℕ
  pub fan_out_delay_ms : Option ℤ
  pub skip_self_update_fan_out : Option Bool
  pub skip_first_fan_out : Option Bool

-- The options of a subscription, where the defaults have set every field.
pub record Options : Type 0 where
  pub data_access : ℕ
  pub data_field_masks : List ℕ
  pub fan_out_interval_ms : ℕ
  pub fan_out_delay_ms : ℤ
  pub skip_self_update_fan_out : Bool
  pub skip_first_fan_out : Bool

pub record ChannelInfo : Type 0 where
  pub channel_id : ℕ
  pub channel_type : ℕ
  pub metadata : List ℕ

pub record CreateChannelMessage : Type 0 where
  pub channel_type : ℕ
  pub metadata : List ℕ
  pub sub_options : Option SubOptions
  -- A wrapped message of unknown type, as a number.
  pub content : Option ℕ
  pub merge_options : Option ℕ

-- A `float64`, by its bits.
abbrev pub Float : Type 0
Float = ℕ

pub record SpatialInfo : Type 0 where
  pub x : Float
  pub y : Float
  pub z : Float

pub record SpatialRegion : Type 0 where
  pub min : SpatialInfo
  pub max : SpatialInfo
  pub channel_id : ℕ
  pub server_index : ℕ

-- `SpatialInterestQuery`. Fields of a message type may be missing.
pub record SpotsAoi : Type 0 where
  pub spots : List SpatialInfo
  pub dists : List ℕ

pub record BoxAoi : Type 0 where
  pub center : Option SpatialInfo
  pub extent : Option SpatialInfo

pub record SphereAoi : Type 0 where
  pub center : Option SpatialInfo
  pub radius : Float

pub record ConeAoi : Type 0 where
  pub center : Option SpatialInfo
  pub direction : Option SpatialInfo
  pub angle : Float
  pub radius : Float

pub record SpatialInterestQuery : Type 0 where
  pub spots_aoi : Option SpotsAoi
  pub box_aoi : Option BoxAoi
  pub sphere_aoi : Option SphereAoi
  pub cone_aoi : Option ConeAoi

-- The messages that the handlers read and send.
pub data Message : Type 0 where
  auth : (player_identifier_token login_token : ℕ) → Message
  auth_result : (result conn_id compression_type : ℕ) (should_recover : Bool) → Message
  create_channel : CreateChannelMessage → Message
  create_channel_result :
      (channel_type : ℕ) (metadata : List ℕ) (owner_conn_id channel_id : ℕ) → Message
  remove_channel : (channel_id : ℕ) → Message
  list_channel : (type_filter : ℕ) (metadata_filters : List (List ℕ)) → Message
  list_channel_result : List ChannelInfo → Message
  sub_to_channel : (conn_id : ℕ) (sub_options : Option SubOptions) → Message
  subscribed : (conn_id : ℕ) (sub_options : Options) (conn_type channel_type : ℕ) → Message
  unsub_from_channel : (conn_id : ℕ) → Message
  unsubscribed : (conn_id conn_type channel_type : ℕ) → Message
  channel_data_update : (content context_conn_id : ℕ) → Message
  disconnect : (conn_id : ℕ) → Message
  server_forward : (client_conn_id : ℕ) (payload : List ℕ) → Message
  channel_owner_lost end_recovery : Message
  add_entity_group remove_entity_group : (group_type : ℕ) (entities : List ℕ) → Message
  create_spatial_channels_result :
      (channel_ids : List ℕ) (metadata : List ℕ) (owner_conn_id : ℕ) → Message
  spatial_channels_ready : (server_index server_count : ℕ) → Message
  spatial_regions_update : List SpatialRegion → Message
  query_spatial_channel : List SpatialInfo → Message
  query_spatial_channel_result : List ℕ → Message
  debug_get_spatial_regions : Message
  channel_data_handover : (src_channel_id dst_channel_id content context_conn_id : ℕ) → Message
  channel_data_recovery :
      ChannelInfo
      → (sub_time : ℤ) → Options
      → (content : ℕ) → (owner_conn_id : ℕ) → (recovery_data : Option ℕ) → Message
  channel_owner_recovered : Message
  update_spatial_interest : (conn_id : ℕ) (query : Option SpatialInterestQuery) → Message

-- The interface value `ctx.Connection`: nothing, a nil `*Connection`, or a connection.
pub data Sender : Type 0 where
  no_sender nil_sender : Sender
  sender : ConnRef → Sender

pub record MessageContext : Type 0 where
  pub msg_type : ℕ
  pub msg : Message
  pub broadcast : ℕ
  pub stub_id : ℕ
  pub channel_id : ℕ
  pub connection : Sender
  pub channel : Option ChanRef
  pub arrival_time : ℤ

-- A `MessagePack` of a packet that arrived.
pub record MessagePack : Type 0 where
  pub channel_id : ℕ
  pub broadcast : ℕ
  pub stub_id : ℕ
  pub msg_type : ℕ
  pub msg_body : List ℕ

-- The handler functions of `MessageMap`, and the two for messages of the user space.
pub data Handler : Type 0 where
  handle_auth handle_create_channel handle_remove_channel handle_list_channel : Handler
  handle_sub_to_channel handle_unsub_from_channel handle_channel_data_update : Handler
  handle_disconnect : Handler
  handle_query_spatial_channel handle_get_spatial_regions : Handler
  handle_update_spatial_interest handle_create_entity_channel : Handler
  handle_add_entity_group handle_remove_entity_group : Handler
  handle_client_to_server_user_message handle_server_to_client_user_message : Handler

pub record Connection : Type 0 where
  pub id : ℕ
  pub connection_type : ℕ
  pub state : ℕ
  pub pit : ℕ
  pub remote_ip : Option ℕ
  pub fsm : FiniteStateMachine
  pub fsm_disallowed_counter : ℕ
  -- What was put into the send queue, oldest first.
  pub send_queue : List MessageContext
  -- The Go map holds pointers to the options of the subscription, so here the channel is held.
  pub spatial_subscriptions : List (ℕ × ChanRef)
  pub recover_handle : Option HandleRef
  pub conn_time : ℕ

pub record ChannelSubscription : Type 0 where
  pub options : Options
  pub sub_time : ℤ

pub record FanOutConnection : Type 0 where
  pub conn : ConnRef
  pub had_first_fan_out : Bool
  pub last_fan_out_time : ℤ
  pub last_message_index : ℕ

pub record UpdateMsgBufferElement : Type 0 where
  pub update_msg : ℕ
  pub arrival_time : ℤ
  pub sender_conn_id : ℕ
  pub message_index : ℕ

pub record ChannelData : Type 0 where
  pub merge_options : Option ℕ
  pub msg : Option ℕ
  pub update_msg_buffer : List UpdateMsgBufferElement
  pub max_fan_out_interval_ms : ℕ
  pub msg_index : ℕ

pub record RecoverableSubscription : Type 0 where
  pub conn_handle : HandleRef
  pub is_owner : Bool
  -- In nanoseconds, not relative to the channel.
  pub old_sub_time : ℤ
  pub old_sub_options : Options

pub record Channel : Type 0 where
  pub id : ℕ
  pub channel_type : ℕ
  pub state : ℕ
  pub owner_connection : Option ConnRef
  pub subscribed_connections : List (ConnRef × ChannelSubscription)
  pub metadata : List ℕ
  pub channel_data : Option ChannelData
  pub latest_data_update_conn_id : ℕ
  pub has_spatial_notifier : Bool
  pub in_msg_queue : List (MessageContext × Handler)
  pub fan_out_queue : List FanOutConnection
  pub start_time : ℕ
  pub enable_client_broadcast : Bool
  pub removing : ℕ
  pub recoverable_subs : List (ℕ × RecoverableSubscription)

-- The access levels of channel_acl.go, any byte in a settings file.
pub record AclSettings : Type 0 where
  pub sub : ℕ
  pub unsub : ℕ
  pub remove : ℕ

pub record ChannelSettings : Type 0 where
  pub tick_interval_ms : ℕ
  pub default_fan_out_interval_ms : ℕ
  pub default_fan_out_delay_ms : ℤ
  pub remove_channel_after_owner_removed : Bool
  pub send_owner_lost_and_recovered : Bool
  pub acl_settings : AclSettings

-- `connectionRecoverHandle`.
pub record RecoverHandle : Type 0 where
  pub prev_conn_id : ℕ
  pub disconn_time : ℕ
  pub new_conn : Option ConnRef
  pub start_recovery_time : ℕ

-- The settings of the process, and the operations of packages that it only calls.
pub record Env : Type 0 where
  pub development : Bool
  pub server_bypass_auth : Bool
  pub server_conn_recoverable : Bool
  pub server_conn_recover_timeout_ms : ℕ
  pub compression_type : ℕ
  -- Whether `InitAntiDDoS` has registered its listeners.
  pub anti_ddos : Bool
  pub max_failed_auth_attempts : ℕ
  pub max_fsm_disallowed : ℕ
  pub connection_auth_timeout_ms : ℕ
  pub max_connection_id_bits : ℕ
  -- The machines that `InitConnections` has loaded.
  pub server_fsm : Option FiniteStateMachine
  pub client_fsm : Option FiniteStateMachine
  pub spatial_channel_id_start : ℕ
  pub entity_channel_id_start : ℕ
  pub channel_settings : List (ℕ × ChannelSettings)
  pub has_spatial_controller : Bool
  -- `proto.Merge` of the options that arrived into those of a subscription.
  pub merge_options : Options → SubOptions → Options
  -- `proto.Marshal` and `proto.Size` of a message pack; `none` is an error.
  pub pack_size : MessageContext → Option ℕ
  -- `proto.Unmarshal` of the body of a message pack into the message of its type.
  pub unmarshal_body : ℕ → List ℕ → Option Message
  -- `proto.Unmarshal` of a packet, and `snappy.DecodedLen` with `snappy.Decode`; `none` is an error.
  pub unmarshal_packet : List ℕ → Option (List MessagePack)
  pub decompress : List ℕ → Option (List ℕ)
  -- `proto.Size` and `proto.Marshal` of a packet of the packs of messages, and `snappy.Encode`.
  pub packet_size : List MessageContext → ℕ
  pub marshal_packet : List MessageContext → Option (List ℕ)
  pub compress : List ℕ → List ℕ
  -- `anypb.Any.UnmarshalNew`.
  pub unmarshal_new : ℕ → Option ℕ
  -- A new message of the type that is registered for a channel type.
  pub new_data_message : ℕ → Option ℕ
  -- `ChannelDataInitializer.Init` of a message, which leaves others as they are.
  pub init_message : ℕ → ℕ
  -- `mergeWithOptions` on the messages of the application.
  pub merge_with_options : ℕ → ℕ → Option ℕ → ℕ
  -- `proto.Merge` of an update into a new message.
  pub merge_into_new : ℕ → ℕ
  -- `fmutils.Filter` by field masks, which changes the message that it gets.
  pub filter_fields : List ℕ → ℕ → ℕ
  -- `anypb.New`; `none` is an error.
  pub wrap_any : ℕ → Option ℕ
  -- The authentication provider, if one is set; its error is the inner `none`.
  pub auth_provider : Option (ℕ → ℕ → ℕ → Option ℕ)

-- `FlatEntityGroupController`. A group is an address, since channels share it.
pub record EntityController : Type 0 where
  pub entity_id : ℕ
  pub handover_group : Option ℕ
  pub lock_group : Option ℕ

pub data Event : Type 0 where
  global_channel_possessed : ChanRef → Event
  fsm_disallowed : ConnRef → Event
  global_channel_unpossessed : Event
  channel_created : ChanRef → Event
  channel_removing : ChanRef → Event
  channel_removed : ℕ → Event
  auth_complete : (auth_result : ℕ) (connection : ConnRef) (pit : ℕ) → Event

pub record World : Type 0 where
  pub conns : ConnRef → Connection
  pub chans : ChanRef → Channel
  pub handles : HandleRef → RecoverHandle
  -- The field `entityController` of each channel, and the sets of entities that they point to.
  pub controllers : ChanRef → Option EntityController
  pub groups : ℕ → List ℕ
  pub next_group : ℕ
  -- The next address that `new` gives a connection, a channel and a recovery handle.
  pub next_conn : ConnRef
  pub next_chan : ChanRef
  pub next_handle : HandleRef
  pub all_connections : List (ℕ × ConnRef)
  pub all_channels : List (ℕ × ChanRef)
  pub next_connection_id : ℕ
  pub next_channel_id : ℕ
  pub next_spatial_channel_id : ℕ
  pub non_spatial_channel_full : Bool
  pub spatial_channel_full : Bool
  pub global_channel : Option ChanRef
  -- The slice `serverConnections` of the spatial controller, empty before its first use.
  pub server_connections : List (Option ConnRef)
  pub recover_handles : List (ℕ × HandleRef)
  pub unauthenticated_connections : List (ℕ × ConnRef)
  -- Keyed by player tokens and by IP addresses alike.
  pub failed_auth_counters : List (ℕ × ℕ)
  pub ip_blacklist : List ℕ
  pub pit_blacklist : List ℕ
  -- Wall-clock time in nanoseconds.
  pub now : ℕ
  -- What was broadcast to the listeners of the events of event.go, oldest first.
  pub events : List Event
