-- ===== src/Wire/Packets.antt =====
-- What more bytes change of the reading of one packet (`readPacket` of pkg/channeld/connection.go).
use channeld.Base.{
  ℕ, zero, suc, ◌≤◌, ◌≡◌, refl, sym, ap, ◌∙◌, subst, Bool, true, false, Option, none, some, List,
  [], ◌∷◌, ◌++◌, ltb, ◌==◌, length, take, drop, length-append, arith,
}
use channeld.World.Types.{ConnRef, World, Env, MessagePack}
use channeld.World.Access.{max_packet_size}
use channeld.Wire.{
  PacketResult, no_packet, wire_error, packet_panic, packet, read_packet, read_body, decoded,
  unmarshalled, handled, read_size, decompressed, next_compression, receive_messages,
}

take-append_of_le {ℓ} :
    {A : Type ℓ} (n : ℕ) (xs ys : List A) → n ≤ length xs → take n (xs ++ ys) ≡ take n xs
take-append_of_le zero xs ys h = refl
take-append_of_le (suc n) [] ys h = absurd (omega arith)
take-append_of_le (suc n) (x ∷ xs) ys h = ap (λ t. x ∷ t) (take-append_of_le n xs ys (omega arith))

drop-append_of_le {ℓ} :
    {A : Type ℓ} (n : ℕ) (xs ys : List A) → n ≤ length xs → drop n (xs ++ ys) ≡ drop n xs ++ ys
drop-append_of_le zero xs ys h = refl
drop-append_of_le (suc n) [] ys h = absurd (omega arith)
drop-append_of_le (suc n) (x ∷ xs) ys h = drop-append_of_le n xs ys (omega arith)

length-drop {ℓ} : {A : Type ℓ} (n : ℕ) (xs : List A) → length (drop n xs) ≤ length xs
length-drop zero xs = omega arith
length-drop (suc n) [] = omega arith
length-drop (suc n) (x ∷ xs) = omega (arith, length-drop n xs)

-- A result on some bytes, and the one with `b` behind them, where the size in the header is there.
abbrev Grown : ℕ → ℕ → List ℕ → PacketResult → PacketResult → Type 0
Grown k n b (no_packet j) r = (j ≡ k) × (r ≡ no_packet k)
Grown k n b wire_error r = r ≡ wire_error
Grown k n b packet_panic r = r ≡ packet_panic
Grown k n b (packet w j rest) r = (r ≡ packet w j (rest ++ b)) × (length rest ≤ n)

-- The same for `readPacket`, where `again` reads the longer bytes with another compression.
abbrev pub Extends : (ℕ → PacketResult) → ℕ → List ℕ → PacketResult → PacketResult → Type 0
Extends again n b (no_packet k) r = r ≡ again k
Extends again n b wire_error r = r ≡ wire_error
Extends again n b packet_panic r = r ≡ packet_panic
Extends again n b (packet w k rest) r = (r ≡ packet w k (rest ++ b)) × (length rest ≤ n)

Grown-Extends :
    (again : ℕ → PacketResult) (k n : ℕ) (b : List ℕ) (r r' : PacketResult)
    → again k ≡ r'
    → Grown k n b r r'
    → Extends again n b r r'
Grown-Extends again k n b (no_packet j) r' h g = sym h ∙ ap again (sym g.0)
Grown-Extends again k n b wire_error r' h g = g
Grown-Extends again k n b packet_panic r' h g = g
Grown-Extends again k n b (packet w j rest) r' h g = g

module _ (env : Env) (c : ConnRef) where
  decoded-Grown :
      (w : World) (k n : ℕ) (rest b : List ℕ) (o : Option (List ℕ))
      → length rest ≤ n
      → Grown k n b (decoded env c w k rest o) (decoded env c w k (rest ++ b) o)
  decoded-Grown w k n rest b none h = refl
  decoded-Grown w k n rest b (some bytes) h = split (env.unmarshal_packet bytes)
    where
      deliver : (o : Option World) → Grown k n b (handled k rest o) (handled k (rest ++ b) o)
      deliver none = refl
      deliver (some w') = (refl, h)

      split :
          (o : Option (List MessagePack))
          → Grown k n b (unmarshalled env c w k rest o) (unmarshalled env c w k (rest ++ b) o)
      split none = (refl, refl)
      split (some messages) = deliver (receive_messages env c w messages)

  next_twice :
      (ct old : ℕ) → next_compression ct (next_compression ct old) ≡ next_compression ct old
  next_twice ct old = ground arith

  -- What the whole of a packet is read as.
  abbrev whole : World → ℕ → ℕ → ℕ → List ℕ → List ℕ → PacketResult
  whole w k ct size bytes rest =
      decoded env c w (next_compression ct k) rest (decompressed env ct (take size bytes))

  read_body-whole :
      (w : World) (k ct size : ℕ) (body : List ℕ)
      → (size == 0) ≡ false
      → ltb max_packet_size size ≡ false
      → ltb (length body) size ≡ false
      → read_body env c w k ct size body ≡ whole w k ct size body (drop size body)
  unfolding read_body
  read_body-whole w k ct size body p q r = rw (p, q, r) refl

  read_body-short :
      (w : World) (k ct size : ℕ) (body : List ℕ)
      → (size == 0) ≡ false
      → ltb max_packet_size size ≡ false
      → ltb (length body) size ≡ true
      → read_body env c w k ct size body ≡ no_packet k
  unfolding read_body
  read_body-short w k ct size body p q r = rw (p, q, r) refl

  read_body-longer :
      (w : World) (k ct size : ℕ) (body b : List ℕ)
      → (size == 0) ≡ false
      → ltb max_packet_size size ≡ false
      → ltb (length body) size ≡ false
      → read_body env c w k ct size (body ++ b) ≡ whole w k ct size body (drop size body ++ b)
  read_body-longer w k ct size body b p q r =
      read_body-whole w k ct size (body ++ b) p q longer
      ∙ ap
          (λ t.
            decoded env c w (next_compression ct k) (drop size (body ++ b)) (decompressed env ct t))
          (take-append_of_le size body b enough)
      ∙ ap (whole w k ct size body) (drop-append_of_le size body b enough)
    where
      enough : size ≤ length body
      enough = ground (arith, r)

      longer : ltb (length (body ++ b)) size ≡ false
      longer = ground (arith, length-append body b, r)

  read_body-Extends :
      (w : World) (old ct size : ℕ) (body b : List ℕ)
      → Extends
          (λ k. read_body env c w k ct size (body ++ b))
          (length body)
          b
          (read_body env c w old ct size body)
          (read_body env c w old ct size (body ++ b))
  unfolding read_body
  read_body-Extends w old ct size body b =
      split (size == 0) (ltb max_packet_size size) (ltb (length body) size) refl refl refl
    where
      again : ℕ → PacketResult
      again k = read_body env c w k ct size (body ++ b)

      Goal : PacketResult → Type 0
      Goal r = Extends again (length body) b r (again old)

      split :
          (e l s : Bool)
          → (size == 0) ≡ e
          → ltb max_packet_size size ≡ l
          → ltb (length body) size ≡ s
          → Goal (read_body env c w old ct size body)
      split true l s p q r = rw (p) refl
      split false true s p q r = rw (p, q) refl
      split false false true p q r =
          subst Goal (sym (read_body-short w old ct size body p q r)) refl
      split false false false p q r =
          let long = λ (k : ℕ). read_body-longer w k ct size body b p q r in
          subst Goal (sym (read_body-whole w old ct size body p q r)) (
            Grown-Extends again (next_compression ct old) (length body) b
              (whole w old ct size body (drop size body)) (again old)
              (long (next_compression ct old)
                ∙ ap
                    (λ k.
                      decoded env c w k (drop size body ++ b)
                        (decompressed env ct (take size body)))
                    (next_twice ct old)
                ∙ sym (long old))
              (subst
                (Grown (next_compression ct old) (length body) b
                  (whole w old ct size body (drop size body)))
                (sym (long old))
                (decoded-Grown w (next_compression ct old) (length body) (drop size body) b
                  (decompressed env ct (take size body)) (length-drop size body))))

  pub read_packet-Extends :
      (w : World) (old b0 : ℕ) (bs b : List ℕ)
      → Extends
          (λ k. read_packet env c w k (b0 ∷ bs ++ b))
          (length bs)
          b
          (read_packet env c w old (b0 ∷ bs))
          (read_packet env c w old (b0 ∷ bs ++ b))
  unfolding read_packet
  read_packet-Extends w old b0 [] b = refl
  read_packet-Extends w old b0 (b1 ∷ []) b = refl
  read_packet-Extends w old b0 (b1 ∷ b2 ∷ []) b = refl
  read_packet-Extends w old b0 (b1 ∷ b2 ∷ b3 ∷ []) b = refl
  read_packet-Extends w old b0 (b1 ∷ b2 ∷ b3 ∷ ct ∷ body) b =
      weaken (read_packet env c w old (b0 ∷ b1 ∷ b2 ∷ b3 ∷ ct ∷ body))
        (read_body-Extends w old ct (read_size b0 b1 b2 b3) body b)
    where
      weaken :
          (r : PacketResult)
          → Extends
              (λ k. read_body env c w k ct (read_size b0 b1 b2 b3) (body ++ b))
              (length body)
              b
              r
              (read_body env c w old ct (read_size b0 b1 b2 b3) (body ++ b))
          → Extends
              (λ k. read_body env c w k ct (read_size b0 b1 b2 b3) (body ++ b))
              (suc (suc (suc (suc (length body)))))
              b
              r
              (read_body env c w old ct (read_size b0 b1 b2 b3) (body ++ b))
      weaken (no_packet k) h = h
      weaken wire_error h = h
      weaken packet_panic h = h
      weaken (packet w' k rest) h = (h.0, omega (arith, h.1))
