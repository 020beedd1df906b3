-- ===== src/Client/Framing.antt =====
-- What the Go client and the server make of the frames of each other (pkg/client/client.go and
-- pkg/channeld/connection.go).
use channeld.Base.{
  ℕ, ◌/◌, ◌%◌, ◌≤◌, ◌<◌, ◌≡◌, ◌≢◌, refl, sym, ap, ◌∙◌, true, false, Option, none, some, List, [],
  ◌∷◌, ◌++◌, ltb, length, length-append, take, take-append, lookup, Option-cases, inl, inr, arith,
}
use mathlib.Core.List.{append_assoc, append-nil}
use channeld.World.Types.{ConnRef, World, Env, MessagePack, Message}
use channeld.World.Access.{max_packet_size}
use channeld.Wire.{read_packet, read_body, read_size, no_packet, frame}
use channeld.Client.{ChanneldClient, ClientEnv, ClientHandler, MessageQueueEntry}
use channeld.Client.Traffic.{
  ok, client_size, queue_messages, client_decompressed, unpacked, receive_body, receive_buffer,
  client_receive, client_frame,
}

-- Where the packet has more than 255 bytes, both sides frame it alike.
pub client_frame-frame :
    (ct : ℕ) (bytes : List ℕ)
    → 255 < length bytes
    → length bytes ≤ max_packet_size
    → client_frame ct bytes ≡ frame ct bytes
unfolding client_frame frame
client_frame-frame ct bytes many fits = rw (wide, small) refl
  where
    wide : ltb 65535 (length bytes) ≡ false
    wide = ground arith

    small : ltb 255 (length bytes) ≡ true
    small = ground arith

-- The server takes a packet of the Go client of at most 255 bytes for one of 19968 bytes more, since
-- the client leaves a letter in the second byte of the size, as doc/design.md describes it: it waits for more bytes, as long as
-- fewer than 19968 follow.
pub read_packet-small_frame :
    (env : Env) (c : ConnRef) (w : World) (old ct : ℕ) (bytes rest : List ℕ)
    → length bytes ≤ 255
    → length rest < 19968
    → read_packet env c w old (client_frame ct bytes ++ rest) ≡ no_packet old
unfolding read_packet read_body read_size client_frame
read_packet-small_frame env c w old ct bytes rest few more =
    rw (low, high) (ground (arith, length-append bytes rest))
  where
    low : ltb 65535 (length bytes) ≡ false
    low = ground arith

    high : ltb 255 (length bytes) ≡ false
    high = ground arith

-- The messages of a packet, as the client queues them; `none` where one has no entry or cannot be
-- unmarshalled.
unfoldable pub entries :
    ClientEnv → List (ℕ × List ClientHandler) → List MessagePack → Option (List MessageQueueEntry)
unfolding lookup
entries env m [] = some []
entries env m (mp ∷ mps) = elim (lookup mp.msg_type m) [
  | none ↦ none
  | some handlers ↦ elim (env.unmarshal_message mp.msg_type mp.msg_body) [
    | none ↦ none
    | some msg ↦ elim (entries env m mps) [
      | none ↦ none
      | some es ↦ some (
          record {
            msg = msg;
            channel_id = mp.channel_id;
            stub_id = mp.stub_id;
            handlers = handlers;
          }
          ∷ es)
    ]
  ]
]

abbrev pub entry_of : MessagePack → Message → List ClientHandler → MessageQueueEntry
entry_of mp msg handlers = record {
  msg = msg;
  channel_id = mp.channel_id;
  stub_id = mp.stub_id;
  handlers = handlers;
}

-- A packet that has entries has a first one.
entries-cons :
    (env : ClientEnv) (m : List (ℕ × List ClientHandler)) (mp : MessagePack)
    (mps : List MessagePack) (es : List MessageQueueEntry)
    → entries env m (mp ∷ mps) ≡ some es
    → (handlers : List ClientHandler) × (msg : Message) × (rest : List MessageQueueEntry) × (lookup
          mp.msg_type m
        ≡ some handlers)
      × (env.unmarshal_message mp.msg_type mp.msg_body ≡ some msg)
      × (entries env m mps ≡ some rest)
      × (es ≡ entry_of mp msg handlers ∷ rest)
unfolding entries
entries-cons env m mp mps es e = elim (Option-cases (lookup mp.msg_type m)) [
  | inl absent ↦ ground (arith, e, absent)
  | inr (handlers, h) ↦ elim (Option-cases (env.unmarshal_message mp.msg_type mp.msg_body)) [
    | inl bad ↦ ground (arith, e, h, bad)
    | inr (msg, k) ↦ elim (Option-cases (entries env m mps)) [
      | inl bad ↦ ground (arith, e, h, k, bad)
      | inr (rest, r) ↦ (handlers, msg, rest, h, k, r, ground (arith, e, h, k, r))
    ]
  ]
]

queue_messages-entries :
    (env : ClientEnv) (mps : List MessagePack) (c : ChanneldClient) (es : List MessageQueueEntry)
    → entries env c.message_map mps ≡ some es
    → queue_messages env c mps
      ≡ ok (record c { read_buffer = []; incoming_queue = c.incoming_queue ++ es })
unfolding entries queue_messages
queue_messages-entries env [] c es e =
    let none_left : [] ≡ es = ground (arith, e) in
    ap (λ (q : List MessageQueueEntry). ok (record c { read_buffer = []; incoming_queue = q }))
      (sym (append-nil c.incoming_queue) ∙ ap (λ q. c.incoming_queue ++ q) none_left)
queue_messages-entries env (mp ∷ mps) c es e =
    let (handlers, msg, rest, h, k, r, first) = entries-cons env c.message_map mp mps es e in
    let c' = record c { incoming_queue = c.incoming_queue ++ entry_of mp msg handlers ∷ [] } in
    rw (queue_messages, h, k)
      (queue_messages-entries env mps c' rest r
        ∙ ap
            (λ (q : List MessageQueueEntry). ok (record c { read_buffer = []; incoming_queue = q }))
            (append_assoc c.incoming_queue (entry_of mp msg handlers ∷ []) rest
              ∙ ap (λ q. c.incoming_queue ++ q) (sym first)))

-- The client takes the messages of a frame of the server from the front of its buffer, where the
-- second byte of the size is not 78, the bytes unpack to these messages and each has an entry and
-- can be unmarshalled. What stands behind the frame is dropped with it, though it may be the next
-- packet.
pub client_receive-frame :
    (env : ClientEnv) (c : ChanneldClient) (ct : ℕ) (wire bytes rest chunk : List ℕ)
    (mps : List MessagePack) (es : List MessageQueueEntry)
    → c.read_buffer ++ chunk ≡ frame ct wire ++ rest
    → length wire ≤ max_packet_size
    → length wire / 256 ≢ 78
    → client_decompressed env ct wire ≡ some bytes
    → env.unmarshal_packet bytes ≡ some mps
    → entries env c.message_map mps ≡ some es
    → client_receive env c chunk
      ≡ ok (record c { read_buffer = []; incoming_queue = c.incoming_queue ++ es })
unfolding client_receive receive_buffer frame client_size
client_receive-frame env c ct wire bytes rest chunk mps es at fits letter unpacks known found =
    let c' = record c { read_buffer = c.read_buffer ++ chunk } in
    ap (receive_buffer env c') at
    ∙ ap (λ n. receive_body env c' ct n (wire ++ rest)) size
    ∙ rw (there, take-append wire rest, unpacks, known) (queue_messages-entries env mps c' es found)
  where
    size : client_size 72 (length wire / 256 % 256) (length wire % 256) ≡ length wire
    size = ground (arith, letter)

    there : ltb (length (wire ++ rest)) (length wire) ≡ false
    there = ground (arith, length-append wire rest)

-- Where the second byte of the size is 78, as for 20000 bytes, the client takes it for a letter of
-- the tag: it unpacks only as many bytes as the last byte of the size says.
client_receive-letter :
    (env : ClientEnv) (c : ChanneldClient) (ct : ℕ) (wire rest chunk : List ℕ)
    → c.read_buffer ++ chunk ≡ frame ct wire ++ rest
    → length wire ≤ max_packet_size
    → length wire / 256 ≡ 78
    → client_receive env c chunk
      ≡ unpacked env
          (record c { read_buffer = c.read_buffer ++ chunk })
          (client_decompressed env ct (take (length wire % 256) (wire ++ rest)))
unfolding client_receive receive_buffer frame client_size
client_receive-letter env c ct wire rest chunk at fits letter =
    let c' = record c { read_buffer = c.read_buffer ++ chunk } in
    ap (receive_buffer env c') at
    ∙ ap (λ n. receive_body env c' ct n (wire ++ rest)) size
    ∙ rw there refl
  where
    size : client_size 72 (length wire / 256 % 256) (length wire % 256) ≡ length wire % 256
    size = ground (arith, letter)

    there : ltb (length (wire ++ rest)) (length wire % 256) ≡ false
    there = ground (arith, length-append wire rest, letter)
