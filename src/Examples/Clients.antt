-- ===== src/Examples/Clients.antt =====
-- Examples of the client library: a packet of one message whose type has a handler.
use channeld.Base.{ℕ, ◌≡◌, ◌≢◌, refl, some, [], ◌∷◌, ◌++◌, arith, has_key, lookup, false}
use channeld.World.Types.{MessagePack, remove_channel}
use channeld.Wire.{read_packet, no_packet, frame}
use channeld.Client.{
  ClientEnv, ChanneldClient, handle_remove_channel, client_message_map, user,
  default_message_handler,
}
use channeld.Client.Traffic.{ok, client_receive, client_frame, register_callback}
use channeld.Client.Framing.{client_receive-frame, read_packet-small_frame, entry_of, entries}
use channeld.Client.Stubs.{register_callback-fresh}
use channeld.Examples.{env, world}

abbrev removal : MessagePack
removal = record { channel_id = 1; broadcast = 0; stub_id = 0; msg_type = 4; msg_body = [] }

-- Every packet has this message.
abbrev client_env : ClientEnv
client_env = record {
  unmarshal_packet = λ bytes. some (removal ∷ []);
  unmarshal_message = λ t body. some (remove_channel 1);
  marshal_message = λ m. some [];
  marshal_packet = λ packs. some [];
  pack_size = λ mp. 10;
  decompress = λ bytes. some bytes;
  compress = λ bytes. bytes;
  run_user = λ n c ch msg. c;
}

abbrev fresh : ChanneldClient
fresh = record {
  id = 0;
  compression_type = 0;
  subscribed_channels = [];
  created_channels = [];
  listed_channels = [];
  read_buffer = [];
  incoming_queue = [];
  outgoing_queue = [];
  message_map = client_message_map;
  stub_callbacks = (0, default_message_handler) ∷ [];
  written = [];
}

-- The bytes behind the frame are the next packet.
client_receive-frame_example :
    client_receive client_env fresh (frame 0 (9 ∷ 9 ∷ []) ++ 67 ∷ [])
    ≡ ok (record fresh {
      read_buffer = [];
      incoming_queue = [] ++ entry_of removal (remove_channel 1) (handle_remove_channel ∷ []) ∷ [];
    })
unfolding entries
client_receive-frame_example =
    client_receive-frame client_env fresh 0 (9 ∷ 9 ∷ []) (9 ∷ 9 ∷ []) (67 ∷ []) _ (removal ∷ []) _
      refl (omega arith) (omega arith) refl refl refl

read_packet-small_frame_example :
    read_packet env 2 world 0 (client_frame 0 (9 ∷ 9 ∷ []) ++ 67 ∷ []) ≡ no_packet 0
read_packet-small_frame_example =
    read_packet-small_frame env 2 world 0 0 (9 ∷ 9 ∷ []) (67 ∷ []) (omega arith) (omega arith)

register_callback-fresh_example :
    let (c', stub_id) = register_callback fresh (some (user 3)) in
    (stub_id ≢ 0)
    × (has_key stub_id fresh.stub_callbacks ≡ false)
    × (lookup stub_id c'.stub_callbacks ≡ some (user 3))
    × ((j : ℕ) → j ≢ stub_id → lookup j c'.stub_callbacks ≡ lookup j fresh.stub_callbacks)
unfolding lookup
register_callback-fresh_example = register_callback-fresh fresh (user 3) refl
