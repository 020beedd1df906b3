-- ===== src/Client/Traffic.antt =====
-- What a client reads and writes: `Receive`, `Tick`, `Send`, `SendRaw` and `writePacket`
-- (pkg/client/client.go).
use channeld.Base.{
  ℕ, zero, suc, ◌+◌, ◌*◌, ◌/◌, ◌%◌, true, false, not, Option, none, some, List, [], ◌∷◌, ◌++◌, ◌==◌,
  ltb, leb, if◌then◌else◌, length, take, lookup, insert, has_key,
}
use channeld.World.Types.{Message, MessagePack, auth}
use channeld.World.Access.{no_broadcast}
use channeld.Wire.{snappy}
use channeld.Client.{ChanneldClient, ClientEnv, ClientHandler, MessageQueueEntry, run_handler}

-- What a call returns: an error or not, and a panic. The client changes also where there is an error.
pub data ClientResult : Type 0 where
  ok client_error : ChanneldClient → ClientResult
  client_panic : ClientResult

-- The size that the bytes 1 to 3 of the tag carry.
unfoldable pub client_size : ℕ → ℕ → ℕ → ℕ
client_size t1 t2 t3 =
    if not (t1 == 72)
    then t1 * 65536 + t2 * 256 + t3
    else if not (t2 == 78)
    then t2 * 256 + t3
    else t3

-- The loop of `Receive` over the messages of a packet. It queues those before an error.
unfoldable pub queue_messages : ClientEnv → ChanneldClient → List MessagePack → ClientResult
unfolding lookup
queue_messages env c [] = ok (record c { read_buffer = [] })
queue_messages env c (mp ∷ mps) = elim (lookup mp.msg_type c.message_map) [
  | none ↦ client_error c
  | some handlers ↦ elim (env.unmarshal_message mp.msg_type mp.msg_body) [
    | none ↦ client_error c
    | some msg ↦
        queue_messages env
          (record c {
            incoming_queue =
                c.incoming_queue
                ++ record {
                  msg = msg;
                  channel_id = mp.channel_id;
                  stub_id = mp.stub_id;
                  handlers = handlers;
                }
                  ∷ [];
          })
          mps
  ]
]

abbrev pub client_decompressed : ClientEnv → ℕ → List ℕ → Option (List ℕ)
client_decompressed env ct bytes = if ct == snappy then env.decompress bytes else some bytes

abbrev pub queue_packet : ClientEnv → ChanneldClient → Option (List MessagePack) → ClientResult
queue_packet env c none = client_error c
queue_packet env c (some mps) = queue_messages env c mps

abbrev pub unpacked : ClientEnv → ChanneldClient → Option (List ℕ) → ClientResult
unpacked env c none = client_error c
unpacked env c (some bytes) = queue_packet env c (env.unmarshal_packet bytes)

abbrev pub receive_body : ClientEnv → ChanneldClient → ℕ → ℕ → List ℕ → ClientResult
receive_body env c ct size body =
    if ltb (length body) size
    then ok c
    else unpacked env c (client_decompressed env ct (take size body))

unfoldable pub receive_buffer : ClientEnv → ChanneldClient → List ℕ → ClientResult
unfolding queue_messages client_size
receive_buffer env c (t0 ∷ t1 ∷ t2 ∷ t3 ∷ ct ∷ body) =
    if not (t0 == 67) then client_error c else receive_body env c ct (client_size t1 t2 t3) body
receive_buffer env c bytes = ok c

-- `Receive` of the bytes that a read returned: one packet at most is taken, from the front of the
-- buffer, and the read position goes back to 0 then.
unfoldable pub client_receive : ClientEnv → ChanneldClient → List ℕ → ClientResult
unfolding receive_buffer
client_receive env c chunk =
    receive_buffer env (record c { read_buffer = c.read_buffer ++ chunk }) (c.read_buffer ++ chunk)

unfoldable pub run_handlers :
    ClientEnv → ChanneldClient → ℕ → Message → List ClientHandler → Option ChanneldClient
unfolding run_handler
run_handlers env c ch msg [] = some c
run_handlers env c ch msg (h ∷ hs) = elim (run_handler env h c ch msg) [
  | none ↦ none
  | some c' ↦ run_handlers env c' ch msg hs
]

-- The callback of a stub id that is not 0.
unfoldable pub run_callback : ClientEnv → ChanneldClient → MessageQueueEntry → Option ChanneldClient
unfolding run_handler lookup
run_callback env c entry =
    if ltb 0 entry.stub_id
    then elim (lookup entry.stub_id c.stub_callbacks) [
      | none ↦ some c
      | some callback ↦ run_handler env callback c entry.channel_id entry.msg
    ]
    else some c

-- The loop of `Tick` over the messages that have come. The handlers of the application do not receive
-- packets themselves.
unfoldable pub handle_incoming :
    ClientEnv → List MessageQueueEntry → ChanneldClient → Option ChanneldClient
unfolding run_handlers run_callback
handle_incoming env [] c = some c
handle_incoming env (entry ∷ rest) c =
    elim (run_handlers env (record c { incoming_queue = rest }) entry.channel_id entry.msg
      entry.handlers) [
        | none ↦ none
        | some c₁ ↦ elim (run_callback env c₁ entry) [
          | none ↦ none
          | some c₂ ↦ handle_incoming env rest c₂
        ]
      ]

-- The loop of `Tick` over what is to be sent: the packs of the packet, and those that stay in the
-- queue. The `size` of the code stays 0; a pack that is too large is taken off the queue and lost.
unfoldable pub take_packs : ClientEnv → List MessagePack → List MessagePack × List MessagePack
take_packs env [] = ([], [])
take_packs env (mp ∷ mps) =
    let (packs, left) = take_packs env mps in
    if leb 16777200 (env.pack_size mp) then ([], mps) else (mp ∷ packs, left)

-- The tag and the bytes behind it.
unfoldable pub client_frame : ℕ → List ℕ → List ℕ
client_frame ct bytes =
    let n = length bytes in
    67
    ∷ (if ltb 65535 n then n / 65536 % 256 else 72)
    ∷ (if ltb 255 n then n / 256 % 256 else 78)
    ∷ n % 256
    ∷ ct
    ∷ bytes

abbrev pub client_encoded : ClientEnv → ℕ → List ℕ → List ℕ
client_encoded env ct bytes = if ct == snappy then env.compress bytes else bytes

-- `writePacket`.
unfoldable pub client_write_packet : ClientEnv → ChanneldClient → List MessagePack → ClientResult
unfolding client_frame
client_write_packet env c packs = elim (env.marshal_packet packs) [
  | none ↦ client_error c
  | some bytes ↦ ok (record c {
    written =
        c.written
        ++ client_frame c.compression_type (client_encoded env c.compression_type bytes) ∷ [];
  })
]

unfoldable pub send_outgoing : ClientEnv → ChanneldClient → ClientResult
unfolding take_packs client_write_packet
send_outgoing env c = elim c.outgoing_queue [
  | [] ↦ ok c
  | mp ∷ mps ↦
      let (packs, left) = take_packs env (mp ∷ mps) in
      client_write_packet env (record c { outgoing_queue = left }) packs
]

-- `Tick`.
unfoldable pub client_tick : ClientEnv → ChanneldClient → ClientResult
unfolding handle_incoming send_outgoing
client_tick env c = elim (handle_incoming env c.incoming_queue c) [
  | none ↦ client_panic
  | some c' ↦ send_outgoing env c'
]

-- The first stub id from `stub_id` on without a callback; the fuel is the number of callbacks and
-- one more.
unfoldable pub free_stub : List (ℕ × ClientHandler) → ℕ → ℕ → ℕ
unfolding lookup
free_stub callbacks zero stub_id = stub_id
free_stub callbacks (suc fuel) stub_id = elim (has_key stub_id callbacks) [
  | true ↦ free_stub callbacks fuel (suc stub_id)
  | false ↦ stub_id
]

-- The stub id for a callback, if there is one, and the client that knows it.
unfoldable pub register_callback : ChanneldClient → Option ClientHandler → ChanneldClient × ℕ
unfolding free_stub insert
register_callback c none = (c, 0)
register_callback c (some callback) =
    let stub_id = free_stub c.stub_callbacks (suc (length c.stub_callbacks)) 0 in
    (record c { stub_callbacks = insert stub_id callback c.stub_callbacks }, stub_id)

-- `SendRaw`.
unfoldable pub send_raw :
    ChanneldClient
    → (channel_id broadcast msg_type : ℕ) → List ℕ
    → Option ClientHandler
    → ChanneldClient
unfolding register_callback
send_raw c channel_id broadcast msg_type msg_body callback =
    let (c', stub_id) = register_callback c callback in
    record c' {
      outgoing_queue =
          c'.outgoing_queue
          ++ record {
            channel_id = channel_id;
            broadcast = broadcast;
            stub_id = stub_id;
            msg_type = msg_type;
            msg_body = msg_body;
          }
            ∷ [];
    }

-- `Send`: the callback stays registered also where the message cannot be marshalled.
unfoldable pub client_send :
    ClientEnv
    → ChanneldClient
    → (channel_id broadcast msg_type : ℕ) → Message
    → Option ClientHandler
    → ClientResult
unfolding register_callback send_raw
client_send env c channel_id broadcast msg_type msg callback = elim (env.marshal_message msg) [
  | none ↦ client_error (register_callback c callback).0
  | some body ↦ ok (send_raw c channel_id broadcast msg_type body callback)
]

-- `Auth`, which forgets an error.
unfoldable pub send_auth : ClientEnv → ChanneldClient → (lt pit : ℕ) → ClientResult
unfolding client_send
send_auth env c lt pit = client_send env c 0 no_broadcast 1 (auth pit lt) none
