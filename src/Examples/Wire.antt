-- ===== src/Examples/Wire.antt =====
-- Examples of packets on the wire.
use channeld.Base.{
  ℕ, zero, suc, ◌++◌, ◌≡◌, ◌≢◌, ◌*◌, length, refl, none, some, List, [], ◌∷◌, arith,
}
use channeld.World.Types.{World, Env, MessageContext, channel_data_update}
use channeld.Wire.{
  Wire, read_packet, receive, frame, handled, receive_messages, next_compression, encoded, reading,
  kept, out_of_rounds,
}
use channeld.Wire.Chunks.{read_all, read_all-joined}
use channeld.Wire.RoundTrip.{read_packet-written}
use channeld.Wire.Rejected.{receive-ends, receive-rejected}
use channeld.Wire.Flushing.{flush_times, Delivered, flush_times-delivers}
use channeld.Wire.Starving.{flush_times-starves}
use channeld.World.Access.{is_closing}
use channeld.Examples.{env, world, from}

abbrev wire : Wire
wire = record { read_buffer = []; compression_type = 0; oversized_msg_pack = none; written = [] }

-- A packet of one byte.
abbrev one_packet : List ℕ
one_packet = 67 ∷ 72 ∷ 0 ∷ 1 ∷ 0 ∷ 9 ∷ []

-- The other side cannot unmarshal anything.
abbrev strict : Env
strict = record env { unmarshal_packet = λ bytes. none }

abbrev stuck_wire : Wire
stuck_wire = record wire { read_buffer = one_packet }

abbrev first : MessageContext
first = from 1 (channel_data_update 5 0)

abbrev second : MessageContext
second = from 1 (channel_data_update 6 0)

-- Two messages wait, each of 40000 bytes.
abbrev busy : World
busy = record world { conns = λ c. record (world.conns c) { send_queue = first ∷ second ∷ [] } }

read_all-joined_example :
    read_all env 2 (reading world wire) ((67 ∷ 72 ∷ []) ∷ (0 ∷ 1 ∷ 0 ∷ []) ∷ (9 ∷ 67 ∷ []) ∷ [])
    ≡ receive env 2 world wire (67 ∷ 72 ∷ 0 ∷ 1 ∷ 0 ∷ 9 ∷ 67 ∷ [])
unfolding is_closing receive read_packet
read_all-joined_example =
    read_all-joined env 2 world wire (67 ∷ 72 ∷ []) ((0 ∷ 1 ∷ 0 ∷ []) ∷ (9 ∷ 67 ∷ []) ∷ []) refl

read_packet-written_example :
    read_packet env 2 world 0 (frame 1 (encoded env 1 (9 ∷ [])) ++ 67 ∷ [])
    ≡ handled (next_compression 1 0) (67 ∷ []) (receive_messages env 2 world [])
read_packet-written_example =
    read_packet-written env 2 world 0 1 (9 ∷ []) (67 ∷ []) [] (λ bs. refl) (omega arith)
      (omega arith) refl

receive-ends_example : receive env 2 world wire one_packet ≢ out_of_rounds
receive-ends_example = receive-ends env 2 world wire one_packet

one_packet-frame : one_packet ≡ frame 0 (9 ∷ []) ++ []
unfolding frame
one_packet-frame = refl

receive-rejected_example :
    receive strict 2 world stuck_wire (67 ∷ [])
    ≡ reading world (kept stuck_wire (next_compression 0 0) (one_packet ++ 67 ∷ []))
receive-rejected_example =
    receive-rejected strict 2 world stuck_wire 0 (9 ∷ []) [] (9 ∷ []) (67 ∷ []) one_packet-frame
      (omega arith) (omega arith) refl refl

-- `proto.Marshal` and `proto.Size` where a message takes 40000 bytes.
abbrev zeros : ℕ → List ℕ
zeros zero = []
zeros (suc n) = 0 ∷ zeros n

abbrev marshal : List MessageContext → List ℕ
marshal ms = zeros (40000 * length ms)

abbrev plain_env : Env
plain_env = record env { marshal_packet = λ ms. some (marshal ms) }

length-zeros : (n : ℕ) → length (zeros n) ≡ n
length-zeros zero = refl
length-zeros (suc n) = omega (arith, length-zeros n)

flush_times-delivers_example :
    let r = flush_times plain_env 2 2 (busy, wire) in
    ((r.0.conns 2).send_queue ≡ []) × Delivered marshal busy 2 wire r.1
flush_times-delivers_example =
    flush_times-delivers plain_env 2 marshal (λ ms. refl) (λ ms. length-zeros (40000 * length ms)) 2
      busy wire (omega arith, (omega arith, tt)) refl (omega arith)

flush_times-starves_example :
    let r = flush_times env 2 (suc 5) (busy, wire) in
    (r.1.written ≡ frame 0 (1 ∷ []) ∷ []) × (r.1.oversized_msg_pack ≡ some second)
flush_times-starves_example =
    flush_times-starves env 2 5 busy wire first second (1 ∷ []) refl refl (omega arith)
      (omega arith) refl refl (omega arith)
