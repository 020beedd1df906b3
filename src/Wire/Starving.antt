-- ===== src/Wire/Starving.antt =====
-- A message that `flush` has put aside (pkg/channeld/connection.go).
use channeld.Base.{
  ℕ, suc, ◌≤◌, ◌<◌, ◌≡◌, refl, ap, ◌∙◌, true, false, none, some, List, [], ◌∷◌, ◌++◌, length, ltb,
  arith, update, ==_self,
}
use channeld.World.Types.{ConnRef, World, Env, MessageContext}
use channeld.World.Access.{max_packet_size, set_conn}
use channeld.Wire.{Wire, Packed, pack, flush, flushed, frame}
use channeld.Wire.Packing.{write_packet-oversized, write_packet-written}
use channeld.Wire.Flushing.{flush_times-empty, flush_times}

-- Where two messages are too much for one packet, the second is put aside.
pack-two :
    (env : Env) (a b : MessageContext)
    → env.packet_size (a ∷ []) ≤ max_packet_size
    → max_packet_size < env.packet_size (a ∷ b ∷ [])
    → pack env [] (a ∷ b ∷ []) ≡ record { messages = a ∷ []; queue = []; oversized = some b }
unfolding pack
pack-two env a b one two = rw (fits, much) refl
  where
    fits : ltb max_packet_size (env.packet_size (a ∷ [])) ≡ false
    fits = ground (arith, one)

    much : ltb max_packet_size (env.packet_size (a ∷ b ∷ [])) ≡ true
    much = ground (arith, two)

first_flush :
    (env : Env) (c : ConnRef) (w : World) (wire : Wire) (a b : MessageContext)
    → (w.conns c).send_queue ≡ a ∷ b ∷ []
    → wire.oversized_msg_pack ≡ none
    → env.packet_size (a ∷ []) ≤ max_packet_size
    → max_packet_size < env.packet_size (a ∷ b ∷ [])
    → flush env w c wire
      ≡ flushed env w c wire (record { messages = a ∷ []; queue = []; oversized = some b })
unfolding flush
first_flush env c w wire a b queued clear one two =
    rw (flush, queued, clear) (ap (flushed env w c wire) (pack-two env a b one two))

-- Two messages wait that are too much for one packet, where the first is not, nothing is compressed
-- and the packet of the first can be marshalled within the size: however often `flush` runs, the only
-- frame that it writes holds the first message alone, and the second is kept aside, as long as no
-- other message is queued.
pub flush_times-starves :
    (env : Env) (c : ConnRef) (n : ℕ) (w : World) (wire : Wire) (a b : MessageContext)
    (bytes : List ℕ)
    → (w.conns c).send_queue ≡ a ∷ b ∷ []
    → wire.oversized_msg_pack ≡ none
    → env.packet_size (a ∷ []) ≤ max_packet_size
    → max_packet_size < env.packet_size (a ∷ b ∷ [])
    → wire.compression_type ≡ 0
    → env.marshal_packet (a ∷ []) ≡ some bytes
    → length bytes ≤ max_packet_size
    → let r = flush_times env c (suc n) (w, wire) in
      (r.1.written ≡ wire.written ++ frame 0 bytes ∷ []) × (r.1.oversized_msg_pack ≡ some b)
unfolding flush_times set_conn update
flush_times-starves env c n w wire a b bytes queued clear one two plain marshalled small =
    let e : flush_times env c (suc n) (w, wire) ≡ flushed env w c wire r =
      ap (flush_times env c n) (first_flush env c w wire a b queued clear one two)
      ∙ flush_times-empty env c n (flushed env w c wire r).0 (flushed env w c wire r).1
          (ground (arith, ==_self c)) in
    let aside : Wire = record wire { oversized_msg_pack = some b } in
    (
      ap (λ (s : World × Wire). s.1.written) e
          ∙ write_packet-written env aside (env.marshal_packet (a ∷ [])) bytes plain marshalled
              small,
      ap (λ (s : World × Wire). s.1.oversized_msg_pack) e
          ∙ write_packet-oversized env aside (env.marshal_packet (a ∷ [])),
    )
  where
    r : Packed
    r = record { messages = a ∷ []; queue = []; oversized = some b }
