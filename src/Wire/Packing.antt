-- ===== src/Wire/Packing.antt =====
-- What the loop of `flush` puts into one packet (pkg/channeld/connection.go).
use channeld.Base.{
  ℕ, suc, ◌≤◌, ◌<◌, ◌≡◌, refl, ◌∙◌, Option, none, some, List, [], ◌∷◌, ◌++◌, ltb, length,
  length-append, arith, update, if-cases, ==_self,
}
use mathlib.Core.List.{append_assoc}
use channeld.World.Types.{ConnRef, World, Env, MessageContext}
use channeld.World.Access.{max_packet_size, set_conn}
use channeld.Wire.{Wire, Packed, pack, flushed, as_list, write_packet, frame}

-- The messages that wait to be sent, in the order in which they were queued.
abbrev pub waiting : World → ConnRef → Wire → List MessageContext
waiting w c wire = as_list wire.oversized_msg_pack ++ (w.conns c).send_queue

pub pack-conserves :
    (env : Env) (p q : List MessageContext)
    → let r = pack env p q in r.messages ++ (as_list r.oversized ++ r.queue) ≡ p ++ q
unfolding pack
pack-conserves env p [] = refl
pack-conserves env p (mp ∷ q) =
    if-cases (λ (r : Packed). r.messages ++ (as_list r.oversized ++ r.queue) ≡ p ++ mp ∷ q)
      (ltb max_packet_size (env.packet_size (p ++ mp ∷ []))) (λ t. refl)
      (λ f. pack-conserves env (p ++ mp ∷ []) q ∙ append_assoc p (mp ∷ []) q)

-- The packet holds what it started with.
pub pack-grows : (env : Env) (p q : List MessageContext) → length p ≤ length (pack env p q).messages
unfolding pack
pack-grows env p [] = omega arith
pack-grows env p (mp ∷ q) =
    if-cases (λ (r : Packed). length p ≤ length r.messages)
      (ltb max_packet_size (env.packet_size (p ++ mp ∷ []))) (λ t. omega arith)
      (λ f. omega (arith, pack-grows env (p ++ mp ∷ []) q, length-append p (mp ∷ [])))

pub pack-first :
    (env : Env) (mp : MessageContext) (q : List MessageContext)
    → env.packet_size (mp ∷ []) ≤ max_packet_size
    → 0 < length (pack env [] (mp ∷ q)).messages
unfolding pack
pack-first env mp q h =
    if-cases (λ (r : Packed). 0 < length r.messages)
      (ltb max_packet_size (env.packet_size (mp ∷ []))) (λ t. absurd (ground (arith, t)))
      (λ f. omega (arith, pack-grows env (mp ∷ []) q))

pub pack-shorter :
    (env : Env) (p : List MessageContext) (mp : MessageContext) (q : List MessageContext)
    → length (pack env p (mp ∷ q)).queue ≤ length q
unfolding pack
pack-shorter env p mp [] =
    if-cases (λ (r : Packed). length r.queue ≤ 0)
      (ltb max_packet_size (env.packet_size (p ++ mp ∷ []))) (λ t. omega arith) (λ f. omega arith)
pack-shorter env p mp (x ∷ q) =
    if-cases (λ (r : Packed). length r.queue ≤ suc (length q))
      (ltb max_packet_size (env.packet_size (p ++ mp ∷ []))) (λ t. omega arith)
      (λ f. omega (arith, pack-shorter env (p ++ mp ∷ []) x q))

pub empty {ℓ} : {A : Type ℓ} (xs : List A) → length xs ≤ 0 → xs ≡ []
empty [] h = refl
empty (x ∷ xs) h = absurd (omega arith)

-- The packet keeps within the size, if what it starts with does.
pub pack-small :
    (env : Env) (p q : List MessageContext)
    → env.packet_size p ≤ max_packet_size
    → env.packet_size (pack env p q).messages ≤ max_packet_size
unfolding pack
pack-small env p [] h = h
pack-small env p (mp ∷ q) h =
    if-cases (λ (r : Packed). env.packet_size r.messages ≤ max_packet_size)
      (ltb max_packet_size (env.packet_size (p ++ mp ∷ []))) (λ t. h)
      (λ f. pack-small env (p ++ mp ∷ []) q (ground (arith, f)))

-- What one flush sends: the first of the messages that wait.
abbrev pub sent_now : Env → World → ConnRef → Wire → List MessageContext
sent_now env w c wire = elim (w.conns c).send_queue [
  | [] ↦ []
  | mp ∷ q ↦ (pack env (as_list wire.oversized_msg_pack) (mp ∷ q)).messages
]

abbrev pub AllFit : Env → List MessageContext → Type 0
AllFit env [] = Unit {0}
AllFit env (mp ∷ mps) = (env.packet_size (mp ∷ []) ≤ max_packet_size) × AllFit env mps

pub pack-fits :
    (env : Env) (o : Option MessageContext) (mp : MessageContext) (q : List MessageContext)
    → AllFit env (as_list o ++ mp ∷ q)
    → env.packet_size (pack env (as_list o) (mp ∷ q)).messages ≤ max_packet_size
unfolding pack
pack-fits env none mp q fit =
    if-cases (λ (r : Packed). env.packet_size r.messages ≤ max_packet_size)
      (ltb max_packet_size (env.packet_size (mp ∷ []))) (λ t. absurd (ground (arith, t, fit.0)))
      (λ f. pack-small env (mp ∷ []) q fit.0)
pack-fits env (some x) mp q fit = pack-small env (x ∷ []) (mp ∷ q) fit.0

pub write_packet-written :
    (env : Env) (wire : Wire) (o : Option (List ℕ)) (bytes : List ℕ)
    → wire.compression_type ≡ 0
    → o ≡ some bytes
    → length bytes ≤ max_packet_size
    → (write_packet env wire o).written ≡ wire.written ++ frame 0 bytes ∷ []
write_packet-written env wire o bytes plain e h = ground (arith, plain, e)

pub AllFit-suffix :
    (env : Env) (xs ys : List MessageContext) → AllFit env (xs ++ ys) → AllFit env ys
AllFit-suffix env [] ys h = h
AllFit-suffix env (x ∷ xs) ys h = AllFit-suffix env xs ys h.1

pub write_packet-oversized :
    (env : Env) (wire : Wire) (o : Option (List ℕ))
    → (write_packet env wire o).oversized_msg_pack ≡ wire.oversized_msg_pack
write_packet-oversized env wire none = refl
write_packet-oversized env wire (some bytes) = ground arith

pub write_packet-compression :
    (env : Env) (wire : Wire) (o : Option (List ℕ))
    → (write_packet env wire o).compression_type ≡ wire.compression_type
write_packet-compression env wire none = refl
write_packet-compression env wire (some bytes) = ground arith

pub flushed-waiting :
    (env : Env) (w : World) (c : ConnRef) (wire : Wire) (r : Packed)
    → waiting (flushed env w c wire r).0 c (flushed env w c wire r).1
      ≡ as_list r.oversized ++ r.queue
unfolding set_conn update
flushed-waiting env w c wire r =
    rw
      (
        write_packet-oversized env (record wire { oversized_msg_pack = r.oversized })
            (env.marshal_packet r.messages),
        ==_self c,
      )
      refl
