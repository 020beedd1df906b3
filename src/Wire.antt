-- ===== src/Wire.antt =====
-- Packets on the wire: `receive`, `readPacket` and `flush` of pkg/channeld/connection.go. The fields
-- of a `Connection` that only these use form a record of their own.
pub mod Rounds
pub mod Chunks
pub mod Packets
pub mod Packing
pub mod Flushing
pub mod Starving
pub mod Rejected
pub mod RoundTrip
use channeld.Base.{
  ℕ, zero, suc, ◌+◌, ◌*◌, ◌/◌, ◌%◌, Bool, true, false, not, ◌&&◌, Option, none, some, List, [], ◌∷◌,
  ◌++◌, ltb, ◌==◌, if◌then◌else◌, length, take, drop,
}
use channeld.World.Types.{ConnRef, World, Env, MessagePack, MessageContext}
use channeld.World.Access.{max_packet_size, packet_header_size, set_conn}
use channeld.Connection.{close}
use channeld.Receive.{receive_message}

pub record Wire : Type 0 where
  -- The part of the read buffer below the read position. That the buffer has a fixed size, from the
  -- settings, is not modelled: a read returns any bytes.
  pub read_buffer : List ℕ
  pub compression_type : ℕ
  pub oversized_msg_pack : Option MessageContext
  -- What was written to the socket, oldest first.
  pub written : List (List ℕ)

abbrev pub snappy : ℕ
snappy = 1

-- `readSize` of the first four bytes of the tag; 0 for a tag that is not valid.
unfoldable pub read_size : ℕ → ℕ → ℕ → ℕ → ℕ
read_size b0 b1 b2 b3 = if b0 == 67 && b1 == 72 then b2 * 256 + b3 else 0

-- The messages of a packet, in their order; `none` is a panic.
unfoldable pub receive_messages : Env → ConnRef → World → List MessagePack → Option World
receive_messages env c w [] = some w
receive_messages env c w (mp ∷ mps) = elim (receive_message env w c mp) [
  | none ↦ none
  | some w' ↦ receive_messages env c w' mps
]

-- What `readPacket` returns: no packet (yet), an error, a packet with the bytes behind it, or, not
-- at all, a panic. A packet may have changed the compression.
pub data PacketResult : Type 0 where
  no_packet : (compression_type : ℕ) → PacketResult
  wire_error packet_panic : PacketResult
  packet : (w : World) (compression_type : ℕ) (rest : List ℕ) → PacketResult

abbrev pub decompressed : Env → ℕ → List ℕ → Option (List ℕ)
decompressed env ct bytes = if ct == snappy then env.decompress bytes else some bytes

abbrev pub next_compression : ℕ → ℕ → ℕ
next_compression ct old = if ct == snappy then snappy else old

abbrev pub handled : ℕ → List ℕ → Option World → PacketResult
handled ct rest none = packet_panic
handled ct rest (some w) = packet w ct rest

abbrev pub unmarshalled :
    Env → ConnRef → World → ℕ → List ℕ → Option (List MessagePack) → PacketResult
unmarshalled env c w ct rest none = no_packet ct
unmarshalled env c w ct rest (some messages) = handled ct rest (receive_messages env c w messages)

abbrev pub decoded : Env → ConnRef → World → ℕ → List ℕ → Option (List ℕ) → PacketResult
decoded env c w ct rest none = wire_error
decoded env c w ct rest (some bytes) = unmarshalled env c w ct rest (env.unmarshal_packet bytes)

-- The part of `readPacket` behind the header.
unfoldable pub read_body : Env → ConnRef → World → ℕ → ℕ → ℕ → List ℕ → PacketResult
unfolding receive_messages
read_body env c w old ct size body =
    if size == 0
    then wire_error
    else if ltb max_packet_size size
    then wire_error
    else if ltb (length body) size
    then no_packet old
    else decoded env c w (next_compression ct old) (drop size body)
        (decompressed env ct (take size body))

-- `readPacket` on the bytes from the buffer position on.
unfoldable pub read_packet : Env → ConnRef → World → ℕ → List ℕ → PacketResult
unfolding read_body read_size
read_packet env c w old (b0 ∷ b1 ∷ b2 ∷ b3 ∷ ct ∷ body) =
    read_body env c w old ct (read_size b0 b1 b2 b3) body
read_packet env c w old bytes = no_packet old

-- What `receive` leaves: a connection that goes on, one closed for an error, or a panic; and a loop
-- whose rounds were not enough.
pub data Reading : Type 0 where
  reading : World → Wire → Reading
  closed_by_error : World → Reading
  panicked out_of_rounds : Reading

abbrev pub kept : Wire → ℕ → List ℕ → Wire
kept wire ct bytes = record wire { read_buffer = bytes; compression_type = ct }

-- The loop of `receive` over the packets in the buffer. Every packet takes bytes away, so as many
-- rounds as there are bytes are enough.
unfoldable pub read_packets : Env → ConnRef → Wire → ℕ → World → ℕ → List ℕ → Reading
read_packets env c wire fuel w ct [] = reading w (kept wire ct [])
read_packets env c wire zero w ct (b ∷ bs) = out_of_rounds
read_packets env c wire (suc fuel) w ct (b ∷ bs) = elim (read_packet env c w ct (b ∷ bs)) [
  | no_packet ct' ↦ reading w (kept wire ct' (b ∷ bs))
  | wire_error ↦ closed_by_error (close env w c true)
  | packet_panic ↦ panicked
  | packet w' ct' rest ↦ read_packets env c wire fuel w' ct' rest
]

-- `receive` of the bytes that a read returned.
unfoldable pub receive : Env → ConnRef → World → Wire → List ℕ → Reading
unfolding read_packets
receive env c w wire chunk =
    let buffer = wire.read_buffer ++ chunk in
    if ltb (length buffer) packet_header_size
    then reading w (kept wire wire.compression_type buffer)
    else read_packets env c wire (length buffer) w wire.compression_type buffer

-- The tag and the bytes behind it.
unfoldable pub frame : ℕ → List ℕ → List ℕ
frame ct bytes = 67 ∷ 72 ∷ length bytes / 256 % 256 ∷ length bytes % 256 ∷ ct ∷ bytes

-- What the loop of `flush` has put into the packet, and what it leaves.
pub record Packed : Type 0 where
  pub messages : List MessageContext
  pub queue : List MessageContext
  pub oversized : Option MessageContext

-- The loop of `flush`, which puts the message that is too much aside.
unfoldable pub pack : Env → List MessageContext → List MessageContext → Packed
pack env p [] = record { messages = p; queue = []; oversized = none }
pack env p (mp ∷ q) =
    let rest = pack env (p ++ mp ∷ []) q in
    if ltb max_packet_size (env.packet_size (p ++ mp ∷ []))
    then record { messages = p; queue = q; oversized = some mp }
    else rest

abbrev pub as_list : Option MessageContext → List MessageContext
as_list none = []
as_list (some mp) = mp ∷ []

abbrev pub encoded : Env → ℕ → List ℕ → List ℕ
encoded env ct bytes = if ct == snappy then env.compress bytes else bytes

abbrev pub write_frame : Wire → List ℕ → Wire
write_frame wire bytes =
    if ltb max_packet_size (length bytes)
    then wire
    else record wire { written = wire.written ++ frame wire.compression_type bytes ∷ [] }

abbrev pub write_packet : Env → Wire → Option (List ℕ) → Wire
write_packet env wire none = wire
write_packet env wire (some bytes) = write_frame wire (encoded env wire.compression_type bytes)

abbrev pub flushed : Env → World → ConnRef → Wire → Packed → World × Wire
flushed env w c wire r = (
  set_conn w c (record (w.conns c) { send_queue = r.queue }),
  write_packet env (record wire { oversized_msg_pack = r.oversized })
      (env.marshal_packet r.messages),
)

-- `flush`.
unfoldable pub flush : Env → World → ConnRef → Wire → World × Wire
unfolding pack set_conn frame
flush env w c wire = elim (w.conns c).send_queue [
  | [] ↦ (w, wire)
  | mp ∷ q ↦ flushed env w c wire (pack env (as_list wire.oversized_msg_pack) (mp ∷ q))
]
