-- ===== src/Wire/Rounds.antt =====
-- The rounds of the loop of `receive` (pkg/channeld/connection.go): more bytes only add rounds.
use channeld.Base.{
  ℕ, zero, suc, ◌≤◌, ◌<◌, ◌≡◌, refl, sym, ap, ◌∙◌, subst, true, List, [], ◌∷◌, ◌++◌, ltb, length,
  length-append, arith, if-cases,
}
use channeld.World.Types.{ConnRef, World, Env}
use channeld.World.Access.{packet_header_size}
use channeld.Connection.{close}
use channeld.Wire.{
  Wire, PacketResult, no_packet, wire_error, packet_panic, packet, Reading, reading,
  closed_by_error, panicked, out_of_rounds, receive, read_packets, read_packet, kept,
}
use channeld.Wire.Packets.{read_packet-Extends, Extends}

module _ (env : Env) (c : ConnRef) where
  pub read_packet-shorter :
      (w : World) (old b0 : ℕ) (bs : List ℕ) (w' : World) (ct : ℕ) (rest : List ℕ)
      → read_packet env c w old (b0 ∷ bs) ≡ packet w' ct rest
      → length rest ≤ length bs
  read_packet-shorter w old b0 bs w' ct rest e =
      (subst
        (λ r.
          Extends (λ k. read_packet env c w k (b0 ∷ bs ++ [])) (length bs) [] r
            (read_packet env c w old (b0 ∷ bs ++ [])))
        e (read_packet-Extends env c w old b0 bs [])).1

  -- The rest of the loop after one packet.
  abbrev pub after : Wire → ℕ → World → List ℕ → PacketResult → Reading
  after wire fuel w bytes (no_packet ct) = reading w (kept wire ct bytes)
  after wire fuel w bytes wire_error = closed_by_error (close env w c true)
  after wire fuel w bytes packet_panic = panicked
  after wire fuel w bytes (packet w' ct rest) = read_packets env c wire fuel w' ct rest

  -- The loop only rewrites the buffer and the compression of the wire.
  pub read_packets-kept :
      (wire : Wire) (x : ℕ) (y : List ℕ) (fuel : ℕ) (w : World) (ct : ℕ) (bytes : List ℕ)
      → read_packets env c (kept wire x y) fuel w ct bytes ≡ read_packets env c wire fuel w ct bytes
  unfolding read_packets
  read_packets-kept wire x y fuel w ct [] = refl
  read_packets-kept wire x y zero w ct (b ∷ bs) = refl
  read_packets-kept wire x y (suc fuel) w ct (b ∷ bs) =
      split (read_packets-kept wire x y fuel) (read_packet env c w ct (b ∷ bs))
    where
      split :
          ((w : World) (ct : ℕ) (bytes : List ℕ)
            → read_packets env c (kept wire x y) fuel w ct bytes
              ≡ read_packets env c wire fuel w ct bytes)
          → (r : PacketResult)
          → after (kept wire x y) fuel w (b ∷ bs) r ≡ after wire fuel w (b ∷ bs) r
      split ih (no_packet k) = refl
      split ih wire_error = refl
      split ih packet_panic = refl
      split ih (packet w' k rest) = ih w' k rest

  after-fuel :
      (wire : Wire) (f g : ℕ) (w : World) (bytes : List ℕ) (r : PacketResult)
      → ((w' : World) (ct : ℕ) (rest : List ℕ)
          → r ≡ packet w' ct rest
          → read_packets env c wire f w' ct rest ≡ read_packets env c wire g w' ct rest)
      → after wire f w bytes r ≡ after wire g w bytes r
  after-fuel wire f g w bytes (no_packet k) h = refl
  after-fuel wire f g w bytes wire_error h = refl
  after-fuel wire f g w bytes packet_panic h = refl
  after-fuel wire f g w bytes (packet w' k rest) h = h w' k rest refl

  -- Any number of rounds that is enough gives the same.
  read_packets-fuel :
      (wire : Wire) (f g : ℕ) (w : World) (ct : ℕ) (bytes : List ℕ)
      → length bytes ≤ f
      → length bytes ≤ g
      → read_packets env c wire f w ct bytes ≡ read_packets env c wire g w ct bytes
  unfolding read_packets
  read_packets-fuel wire f g w ct [] hf hg = refl
  read_packets-fuel wire zero g w ct (b ∷ bs) hf hg = absurd (omega arith)
  read_packets-fuel wire (suc f) zero w ct (b ∷ bs) hf hg = absurd (omega arith)
  read_packets-fuel wire (suc f) (suc g) w ct (b ∷ bs) hf hg =
      after-fuel wire f g w (b ∷ bs) (read_packet env c w ct (b ∷ bs)) (λ w' k rest e.
        let shorter = read_packet-shorter w ct b bs w' k rest e in
        read_packets-fuel wire f g w' k rest (omega (arith, shorter)) (omega (arith, shorter)))

  -- What the loop does with `b` when it has come this far.
  abbrev pub continue : Wire → Reading → List ℕ → Reading
  continue wire (reading w wire') b =
      read_packets env c wire (length (wire'.read_buffer ++ b)) w wire'.compression_type
        (wire'.read_buffer ++ b)
  continue wire (closed_by_error w) b = closed_by_error w
  continue wire panicked b = panicked
  continue wire out_of_rounds b = out_of_rounds

  after-continue :
      (wire : Wire) (f g : ℕ) (w : World) (x : ℕ) (xs b : List ℕ) (r r' : PacketResult)
      → length xs ≤ f
      → length (xs ++ b) ≤ g
      → Extends (λ k. read_packet env c w k (x ∷ xs ++ b)) (length xs) b r r'
      → ((w' : World) (k : ℕ) (rest : List ℕ)
          → length rest ≤ f
          → length (rest ++ b) ≤ g
          → read_packets env c wire g w' k (rest ++ b)
            ≡ continue wire (read_packets env c wire f w' k rest) b)
      → after wire g w (x ∷ xs ++ b) r' ≡ continue wire (after wire f w (x ∷ xs) r) b
  unfolding read_packets
  after-continue wire f g w x xs b (no_packet k) r' hf hg e ih =
      ap (after wire g w (x ∷ xs ++ b)) e
      ∙ read_packets-fuel wire (suc g) (suc (length (xs ++ b))) w k (x ∷ xs ++ b)
          (omega (arith, hg)) (omega arith)
  after-continue wire f g w x xs b wire_error r' hf hg e ih = ap (after wire g w (x ∷ xs ++ b)) e
  after-continue wire f g w x xs b packet_panic r' hf hg e ih = ap (after wire g w (x ∷ xs ++ b)) e
  after-continue wire f g w x xs b (packet w' k rest) r' hf hg e ih =
      ap (after wire g w (x ∷ xs ++ b)) e.0
      ∙ ih w' k rest (omega (arith, e.1))
          (omega (arith, e.1, length-append rest b, length-append xs b))

  pub read_packets-append :
      (wire : Wire) (f g : ℕ) (w : World) (ct : ℕ) (a b : List ℕ)
      → length a ≤ f
      → length (a ++ b) ≤ g
      → read_packets env c wire g w ct (a ++ b) ≡ continue wire (read_packets env c wire f w ct a) b
  unfolding read_packets
  read_packets-append wire f g w ct [] b hf hg =
      read_packets-fuel wire g (length b) w ct b hg (omega arith)
  read_packets-append wire zero g w ct (x ∷ xs) b hf hg = absurd (omega arith)
  read_packets-append wire (suc f) zero w ct (x ∷ xs) b hf hg = absurd (omega arith)
  read_packets-append wire (suc f) (suc g) w ct (x ∷ xs) b hf hg =
      after-continue wire f g w x xs b (read_packet env c w ct (x ∷ xs))
        (read_packet env c w ct (x ∷ xs ++ b)) (omega (arith, hf)) (omega (arith, hg))
        (read_packet-Extends env c w ct x xs b)
        (λ w' k rest hr hrb. read_packets-append wire f g w' k rest b hr hrb)

  read_packets-short :
      (wire : Wire) (w : World) (ct : ℕ) (bytes : List ℕ)
      → length bytes < packet_header_size
      → read_packets env c wire (length bytes) w ct bytes ≡ reading w (kept wire ct bytes)
  unfolding read_packets read_packet
  read_packets-short wire w ct [] h = refl
  read_packets-short wire w ct (b0 ∷ []) h = refl
  read_packets-short wire w ct (b0 ∷ b1 ∷ []) h = refl
  read_packets-short wire w ct (b0 ∷ b1 ∷ b2 ∷ []) h = refl
  read_packets-short wire w ct (b0 ∷ b1 ∷ b2 ∷ b3 ∷ []) h = refl
  read_packets-short wire w ct (b0 ∷ b1 ∷ b2 ∷ b3 ∷ b4 ∷ bs) h = absurd (omega arith)

  -- The test for an unfinished header changes nothing.
  pub receive-read_packets :
      (w : World) (wire : Wire) (chunk : List ℕ)
      → receive env c w wire chunk
        ≡ read_packets env c wire
            (length (wire.read_buffer ++ chunk))
            w
            wire.compression_type
            (wire.read_buffer ++ chunk)
  unfolding receive
  receive-read_packets w wire chunk =
      if-cases (λ r. r ≡ read_packets env c wire (length buffer) w wire.compression_type buffer)
        (ltb (length buffer) packet_header_size)
        (λ t. sym (read_packets-short wire w wire.compression_type buffer (ground arith)))
        (λ f. refl)
    where
      buffer : List ℕ
      buffer = wire.read_buffer ++ chunk

  -- Only the buffer and the compression of the wire change.
  abbrev pub KeepsRest : Wire → Reading → Type 0
  KeepsRest wire (reading w wire') = wire' ≡ kept wire wire'.compression_type wire'.read_buffer
  KeepsRest wire (closed_by_error w) = Unit {0}
  KeepsRest wire panicked = Unit {0}
  KeepsRest wire out_of_rounds = Unit {0}

  pub read_packets-KeepsRest :
      (wire : Wire) (fuel : ℕ) (w : World) (ct : ℕ) (bytes : List ℕ)
      → KeepsRest wire (read_packets env c wire fuel w ct bytes)
  unfolding read_packets
  read_packets-KeepsRest wire fuel w ct [] = refl
  read_packets-KeepsRest wire zero w ct (b ∷ bs) = tt
  read_packets-KeepsRest wire (suc fuel) w ct (b ∷ bs) =
      split (read_packets-KeepsRest wire fuel) (read_packet env c w ct (b ∷ bs))
    where
      split :
          ((w : World) (ct : ℕ) (bytes : List ℕ)
            → KeepsRest wire (read_packets env c wire fuel w ct bytes))
          → (r : PacketResult) → KeepsRest wire (after wire fuel w (b ∷ bs) r)
      split ih (no_packet k) = refl
      split ih wire_error = tt
      split ih packet_panic = tt
      split ih (packet w' k rest) = ih w' k rest
