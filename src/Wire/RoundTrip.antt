-- ===== src/Wire/RoundTrip.antt =====
-- What one side frames and the other side reads (`flush` and `readPacket` of
-- pkg/channeld/connection.go).
use channeld.Base.{
  ℕ, ◌/◌, ◌%◌, ◌≤◌, ◌<◌, ◌≡◌, refl, ap, ◌∙◌, false, some, List, ◌++◌, ltb, ◌==◌, length,
  length-append, take-append, drop-append, arith,
}
use channeld.World.Types.{ConnRef, World, Env, MessagePack}
use channeld.World.Access.{max_packet_size}
use channeld.Wire.{
  read_packet, read_body, read_size, frame, decompressed, next_compression, decoded, handled,
  receive_messages, encoded,
}

-- The size that a frame carries, in two bytes.
pub read_size-frame : (n : ℕ) → n ≤ max_packet_size → read_size 67 72 (n / 256 % 256) (n % 256) ≡ n
unfolding read_size
read_size-frame n h = omega arith

read_body-framed :
    (env : Env) (c : ConnRef) (w : World) (old ct : ℕ) (body rest : List ℕ)
    → 0 < length body
    → length body ≤ max_packet_size
    → read_body env c w old ct (length body) (body ++ rest)
      ≡ decoded env c w (next_compression ct old) rest (decompressed env ct body)
unfolding read_body
read_body-framed env c w old ct body rest some_bytes fits =
    rw (filled, small, there, take-append body rest, drop-append body rest) refl
  where
    filled : (length body == 0) ≡ false
    filled = ground arith

    small : ltb max_packet_size (length body) ≡ false
    small = ground arith

    there : ltb (length (body ++ rest)) (length body) ≡ false
    there = ground (arith, length-append body rest)

-- The tag and the body that a frame starts with are read off it.
pub read_packet-frame :
    (env : Env) (c : ConnRef) (w : World) (old ct : ℕ) (body rest : List ℕ)
    → 0 < length body
    → length body ≤ max_packet_size
    → read_packet env c w old (frame ct body ++ rest)
      ≡ decoded env c w (next_compression ct old) rest (decompressed env ct body)
unfolding read_packet frame
read_packet-frame env c w old ct body rest some_bytes fits =
    ap (λ n. read_body env c w old ct n (body ++ rest)) (read_size-frame (length body) fits)
    ∙ read_body-framed env c w old ct body rest some_bytes fits

-- The messages of a packet that was framed, compressed or not, not empty and within the size limit,
-- reach the other side, and reading goes on behind the frame. Decompressing undoes the compression,
-- and the other side unmarshals the bytes of the packet to the messages `ms`.
pub read_packet-written :
    (env : Env) (c : ConnRef) (w : World) (old ct : ℕ) (bytes rest : List ℕ) (ms : List MessagePack)
    → ((bs : List ℕ) → env.decompress (env.compress bs) ≡ some bs)
    → 0 < length (encoded env ct bytes)
    → length (encoded env ct bytes) ≤ max_packet_size
    → env.unmarshal_packet bytes ≡ some ms
    → read_packet env c w old (frame ct (encoded env ct bytes) ++ rest)
      ≡ handled (next_compression ct old) rest (receive_messages env c w ms)
read_packet-written env c w old ct bytes rest ms undone some_bytes fits understood =
    read_packet-frame env c w old ct (encoded env ct bytes) rest some_bytes fits
    ∙ ground (arith, undone bytes, understood)
