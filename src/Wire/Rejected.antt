-- ===== src/Wire/Rejected.antt =====
-- The rounds of the loop of `receive`, and packets that cannot be unmarshalled
-- (pkg/channeld/connection.go).
use channeld.Base.{
  ℕ, zero, suc, ◌≤◌, ◌<◌, ◌≡◌, refl, sym, ap, ◌∙◌, ◌≢◌, none, some, List, [], ◌∷◌, ◌++◌, length,
  arith,
}
use mathlib.Core.List.{append_assoc}
use channeld.Wire.RoundTrip.{read_packet-frame}
use channeld.World.Types.{ConnRef, World, Env}
use channeld.World.Access.{max_packet_size}
use channeld.Wire.{
  Wire, PacketResult, no_packet, wire_error, packet_panic, packet, reading, out_of_rounds, receive,
  read_packets, read_packet, frame, kept, decompressed, next_compression,
}
use channeld.Wire.Rounds.{read_packet-shorter, receive-read_packets, after}

module _ (env : Env) (c : ConnRef) where
  read_packets-ends :
      (wire : Wire) (fuel : ℕ) (w : World) (ct : ℕ) (bytes : List ℕ)
      → length bytes ≤ fuel
      → read_packets env c wire fuel w ct bytes ≢ out_of_rounds
  unfolding read_packets
  read_packets-ends wire fuel w ct [] h e = ground (arith, e)
  read_packets-ends wire zero w ct (b ∷ bs) h e = omega arith
  read_packets-ends wire (suc fuel) w ct (b ∷ bs) h e =
      split (read_packet env c w ct (b ∷ bs))
        (λ w' k rest e.
          read_packets-ends wire fuel w' k rest
            (omega (arith, h, read_packet-shorter env c w ct b bs w' k rest e)))
        e
    where
      split :
          (r : PacketResult)
          → ((w' : World) (k : ℕ) (rest : List ℕ)
              → r ≡ packet w' k rest
              → read_packets env c wire fuel w' k rest ≢ out_of_rounds)
          → after env c wire fuel w (b ∷ bs) r ≢ out_of_rounds
      split (no_packet k) ih e = ground (arith, e)
      split wire_error ih e = ground (arith, e)
      split packet_panic ih e = ground (arith, e)
      split (packet w' k rest) ih e = ih w' k rest refl e

  -- The loop over the buffer ends whatever the bytes are.
  pub receive-ends :
      (w : World) (wire : Wire) (chunk : List ℕ) → receive env c w wire chunk ≢ out_of_rounds
  receive-ends w wire chunk e =
      read_packets-ends wire (length (wire.read_buffer ++ chunk)) w wire.compression_type
        (wire.read_buffer ++ chunk) (omega arith)
        (sym (receive-read_packets env c w wire chunk) ∙ e)

  -- A packet that cannot be unmarshalled, not empty and within the size limit, stays at the front of
  -- the buffer: whatever the connection reads next, no message is handled, the connection is not
  -- closed, and the bytes are kept behind the packet.
  pub receive-rejected :
      (w : World) (wire : Wire) (ct : ℕ) (body rest unpacked chunk : List ℕ)
      → wire.read_buffer ≡ frame ct body ++ rest
      → 0 < length body
      → length body ≤ max_packet_size
      → decompressed env ct body ≡ some unpacked
      → env.unmarshal_packet unpacked ≡ none
      → receive env c w wire chunk
        ≡ reading w
            (kept wire (next_compression ct wire.compression_type) (wire.read_buffer ++ chunk))
  unfolding read_packets frame
  receive-rejected w wire ct body rest unpacked chunk at some_bytes fits unpacks fails =
      receive-read_packets env c w wire chunk
      ∙ ap
          (λ bs.
            read_packets env c wire (length (bs ++ chunk)) w wire.compression_type (bs ++ chunk))
          at
      ∙ rw (append_assoc body rest chunk) (
          ap
            (after env c wire (suc (suc (suc (suc (length (body ++ (rest ++ chunk))))))) w
              (frame ct body ++ (rest ++ chunk)))
            stays)
      ∙ ap (λ bs. reading w (kept wire (next_compression ct wire.compression_type) (bs ++ chunk)))
          (sym at)
    where
      stays :
          read_packet env c w wire.compression_type (frame ct body ++ (rest ++ chunk))
          ≡ no_packet (next_compression ct wire.compression_type)
      stays =
          read_packet-frame env c w wire.compression_type ct body (rest ++ chunk) some_bytes fits
          ∙ rw (unpacks, fails) refl
