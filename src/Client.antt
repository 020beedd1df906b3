-- ===== src/Client.antt =====
-- The library for clients in Go (pkg/client/client.go), which runs in a process of its own.
pub mod Traffic
pub mod Framing
pub mod Stubs
use channeld.Base.{
  ℕ, zero, suc, ◌+◌, ◌*◌, ◌/◌, ◌%◌, Bool, true, false, not, ◌&&◌, Option, none, some, List, [], ◌∷◌,
  ◌++◌, ◌==◌, ltb, leb, if◌then◌else◌, length, take, drop, keep, contains, lookup, insert, has_key,
}
use channeld.Ddos.{successful}
use channeld.World.Types.{
  Message, MessagePack, ChannelInfo, auth, auth_result, create_channel_result, remove_channel,
  list_channel_result,
}

-- The functions of type `MessageHandlerFunc`: those of the library, the one that does nothing, and
-- those of the application by a number.
pub data ClientHandler : Type 0 where
  handle_auth handle_create_channel handle_remove_channel handle_sub_to_channel : ClientHandler
  handle_unsub_to_channel handle_list_channel default_message_handler : ClientHandler
  user : ℕ → ClientHandler

pub record MessageQueueEntry : Type 0 where
  pub msg : Message
  pub channel_id : ℕ
  pub stub_id : ℕ
  pub handlers : List ClientHandler

-- `ChanneldClient`. The sets of channel ids are lists.
pub record ChanneldClient : Type 0 where
  pub id : ℕ
  pub compression_type : ℕ
  pub subscribed_channels : List ℕ
  pub created_channels : List ℕ
  pub listed_channels : List ℕ
  -- The part of the read buffer below the read position.
  pub read_buffer : List ℕ
  pub incoming_queue : List MessageQueueEntry
  pub outgoing_queue : List MessagePack
  -- The handlers of each message type; the template decides the type of the messages.
  pub message_map : List (ℕ × List ClientHandler)
  pub stub_callbacks : List (ℕ × ClientHandler)
  -- What was written to the socket, oldest first.
  pub written : List (List ℕ)

-- The operations of protobuf and snappy, where `none` is an error, and of the application.
pub record ClientEnv : Type 0 where
  pub unmarshal_packet : List ℕ → Option (List MessagePack)
  -- The body of a message, by the template of its type.
  pub unmarshal_message : ℕ → List ℕ → Option Message
  pub marshal_message : Message → Option (List ℕ)
  pub marshal_packet : List MessagePack → Option (List ℕ)
  pub pack_size : MessagePack → ℕ
  pub decompress : List ℕ → Option (List ℕ)
  pub compress : List ℕ → List ℕ
  pub run_user : ℕ → ChanneldClient → ℕ → Message → ChanneldClient

abbrev pub delete_key : ℕ → List ℕ → List ℕ
delete_key id ids = keep (λ x. not (x == id)) ids

abbrev pub add_key : ℕ → List ℕ → List ℕ
add_key id ids = if contains id ids then ids else ids ++ id ∷ []

abbrev pub no_compression : ℕ
no_compression = 0

abbrev pub client_message_map : List (ℕ × List ClientHandler)
client_message_map =
    (1, handle_auth ∷ [])
    ∷ (3, handle_create_channel ∷ [])
    ∷ (4, handle_remove_channel ∷ [])
    ∷ (6, handle_sub_to_channel ∷ [])
    ∷ (7, handle_unsub_to_channel ∷ [])
    ∷ (5, handle_list_channel ∷ [])
    ∷ (8, default_message_handler ∷ [])
    ∷ []

-- `NewClient` once the connection is there. The callback 0 is reserved.
unfoldable pub new_client : ChanneldClient
new_client = record {
  id = 0;
  compression_type = no_compression;
  subscribed_channels = [];
  created_channels = [];
  listed_channels = [];
  read_buffer = [];
  incoming_queue = [];
  outgoing_queue = [];
  message_map = client_message_map;
  stub_callbacks = (0, default_message_handler) ∷ [];
  written = [];
}

-- `SetMessageEntry` and `AddMessageHandler`, where `none` is the error.
unfoldable pub set_message_entry : ChanneldClient → ℕ → List ClientHandler → ChanneldClient
unfolding insert
set_message_entry c msg_type handlers = record c {
  message_map = insert msg_type handlers c.message_map;
}

unfoldable pub add_message_handler : ChanneldClient → ℕ → List ClientHandler → Option ChanneldClient
unfolding lookup set_message_entry
add_message_handler c msg_type handlers = elim (lookup msg_type c.message_map) [
  | none ↦ none
  | some entry ↦ some (set_message_entry c msg_type (entry ++ handlers))
]

unfoldable pub channel_ids : List ChannelInfo → List ℕ → List ℕ
channel_ids [] ids = ids
channel_ids (info ∷ infos) ids = channel_ids infos (add_key info.channel_id ids)

abbrev on_auth_result : ChanneldClient → ℕ → ℕ → ℕ → ChanneldClient
on_auth_result c result conn_id compression_type =
    if result == successful && c.id == 0
    then record c { id = conn_id; compression_type = compression_type }
    else c

-- The call of a handler; `none` is the panic of a type assertion.
unfoldable pub run_handler :
    ClientEnv → ClientHandler → ChanneldClient → ℕ → Message → Option ChanneldClient
unfolding keep channel_ids
run_handler env handle_auth c ch msg = elim msg [
  | auth_result result conn_id ct should_recover ↦ some (on_auth_result c result conn_id ct)
  | _ ↦ none
]
run_handler env handle_create_channel c ch msg =
    some (record c { created_channels = add_key ch c.created_channels })
run_handler env handle_remove_channel c ch msg = elim msg [
  | remove_channel id ↦ some (record c {
    subscribed_channels = delete_key id c.subscribed_channels;
    created_channels = delete_key id c.created_channels;
    listed_channels = delete_key id c.listed_channels;
  })
  | _ ↦ none
]
run_handler env handle_sub_to_channel c ch msg =
    some (record c { subscribed_channels = add_key ch c.subscribed_channels })
run_handler env handle_unsub_to_channel c ch msg =
    some (record c { subscribed_channels = delete_key ch c.subscribed_channels })
run_handler env handle_list_channel c ch msg = elim msg [
  | list_channel_result infos ↦ some (record c { listed_channels = channel_ids infos [] })
  | _ ↦ none
]
run_handler env default_message_handler c ch msg = some c
run_handler env (user n) c ch msg = some (env.run_user n c ch msg)
