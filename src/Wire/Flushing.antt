-- ===== src/Wire/Flushing.antt =====
-- What `flush` does to the messages that wait (pkg/channeld/connection.go).
use channeld.Base.{
  ℕ, zero, suc, ◌≤◌, ◌<◌, ◌≡◌, refl, sym, ap, ◌∙◌, subst, ◌≢◌, Option, none, some, List, [], ◌∷◌,
  ◌++◌, length, arith, update, ==_self,
}
use mathlib.Core.List.{append_assoc, append-nil}
use channeld.World.Types.{ConnRef, World, Env, MessageContext}
use channeld.World.Access.{set_conn}
use channeld.Wire.{Wire, pack, flush, as_list, frame}
use channeld.Wire.Packing.{
  waiting, pack-conserves, pack-grows, pack-first, pack-shorter, empty, sent_now, AllFit, pack-fits,
  write_packet-written, write_packet-compression, AllFit-suffix, flushed-waiting,
}

module _ (env : Env) (w : World) (c : ConnRef) (wire : Wire) where
  -- A flush packs the messages that have waited longest, in their order, and leaves the others
  -- waiting in theirs: none is lost, doubled or overtaken on the way from the queue to the packet.
  pub flush-waiting :
      let r = flush env w c wire in sent_now env w c wire ++ waiting r.0 c r.1 ≡ waiting w c wire
  unfolding flush
  flush-waiting = split (w.conns c).send_queue refl
    where
      split :
          (q : List MessageContext)
          → (w.conns c).send_queue ≡ q
          → sent_now env w c wire ++ waiting (flush env w c wire).0 c (flush env w c wire).1
            ≡ waiting w c wire
      split [] e = rw (e, flush, sent_now) (ap (λ t. as_list wire.oversized_msg_pack ++ t) e)
      split (mp ∷ q) e =
          rw (e, flush, sent_now)
            (ap (λ t. (pack env (as_list wire.oversized_msg_pack) (mp ∷ q)).messages ++ t)
                (flushed-waiting env w c wire (pack env (as_list wire.oversized_msg_pack) (mp ∷ q)))
              ∙ pack-conserves env (as_list wire.oversized_msg_pack) (mp ∷ q))

  -- A flush of a queue that is not empty sends something, where each message fits on its own.
  flush-progress :
      AllFit env (w.conns c).send_queue
      → (w.conns c).send_queue ≢ []
      → 0 < length (sent_now env w c wire)
  flush-progress fit there = split (w.conns c).send_queue wire.oversized_msg_pack refl refl
    where
      split :
          (q : List MessageContext) (o : Option MessageContext)
          → (w.conns c).send_queue ≡ q
          → wire.oversized_msg_pack ≡ o
          → 0 < length (sent_now env w c wire)
      split [] o e f = absurd (there e)
      split (mp ∷ q) none e f =
          rw (sent_now, e, f) (pack-first env mp q (subst (AllFit env) e fit).0)
      split (mp ∷ q) (some x) e f =
          rw (sent_now, e, f) (omega (arith, pack-grows env (x ∷ []) (mp ∷ q)))

  sent_now-cons :
      {mp : MessageContext} {q : List MessageContext}
      → (w.conns c).send_queue ≡ mp ∷ q
      → sent_now env w c wire ≡ (pack env (as_list wire.oversized_msg_pack) (mp ∷ q)).messages
  sent_now-cons e = rw (sent_now, e) refl

  -- A flush of a queue that is not empty writes one frame around the packet of what it sends, where
  -- each message fits into a packet on its own, nothing is compressed, the packet can be marshalled
  -- and `proto.Size` is the length of what `proto.Marshal` gives.
  pub flush-writes :
      (bytes : List ℕ)
      → ((ms : List MessageContext) (bs : List ℕ)
          → env.marshal_packet ms ≡ some bs
          → length bs ≡ env.packet_size ms)
      → AllFit env (waiting w c wire)
      → (w.conns c).send_queue ≢ []
      → wire.compression_type ≡ 0
      → env.marshal_packet (sent_now env w c wire) ≡ some bytes
      → (flush env w c wire).1.written ≡ wire.written ++ frame 0 bytes ∷ []
  unfolding flush
  flush-writes bytes sized fit there plain marshalled = split (w.conns c).send_queue refl
    where
      split :
          (q : List MessageContext)
          → (w.conns c).send_queue ≡ q
          → (flush env w c wire).1.written ≡ wire.written ++ frame 0 bytes ∷ []
      split [] e = absurd (there e)
      split (mp ∷ q) e =
          let r = pack env (as_list wire.oversized_msg_pack) (mp ∷ q) in
          let m : env.marshal_packet r.messages ≡ some bytes =
            ap env.marshal_packet (sym (sent_now-cons e)) ∙ marshalled in
          rw (e, flush)
            (write_packet-written env (record wire { oversized_msg_pack = r.oversized })
              (env.marshal_packet r.messages) bytes plain m
              (omega (
                arith,
                sized r.messages bytes m,
                pack-fits env wire.oversized_msg_pack mp q
                    (subst (λ t. AllFit env (as_list wire.oversized_msg_pack ++ t)) e fit),
              )))

  -- A message that was put aside waits for another one: while the queue is empty, a flush does
  -- nothing.
  pub flush-stuck : (w.conns c).send_queue ≡ [] → flush env w c wire ≡ (w, wire)
  unfolding flush
  flush-stuck e = rw (flush, e) refl

-- The states of one flush after another, and all that they send.
unfoldable pub flush_times : Env → ConnRef → ℕ → World × Wire → World × Wire
flush_times env c zero s = s
flush_times env c (suc n) s = flush_times env c n (flush env s.0 c s.1)

flush-shorter :
    (env : Env) (w : World) (c : ConnRef) (wire : Wire) (n : ℕ)
    → length (w.conns c).send_queue ≤ suc n
    → length ((flush env w c wire).0.conns c).send_queue ≤ n
unfolding flush set_conn update
flush-shorter env w c wire n h = split (w.conns c).send_queue refl
  where
    split :
        (q : List MessageContext)
        → (w.conns c).send_queue ≡ q
        → length ((flush env w c wire).0.conns c).send_queue ≤ n
    split [] e = rw (e, flush) (ground (arith, e))
    split (mp ∷ q) e =
        rw (e, flush, ==_self c)
          (omega (
            arith,
            pack-shorter env (as_list wire.oversized_msg_pack) mp q,
            subst (λ t. length t ≤ suc n) e h,
          ))

-- With an empty queue nothing changes.
pub flush_times-empty :
    (env : Env) (c : ConnRef) (n : ℕ) (w : World) (wire : Wire)
    → (w.conns c).send_queue ≡ []
    → flush_times env c n (w, wire) ≡ (w, wire)
unfolding flush_times
flush_times-empty env c zero w wire e = refl
flush_times-empty env c (suc n) w wire e =
    ap (flush_times env c n) (flush-stuck env w c wire e) ∙ flush_times-empty env c n w wire e

flush-compression :
    (env : Env) (w : World) (c : ConnRef) (wire : Wire)
    → (flush env w c wire).1.compression_type ≡ wire.compression_type
unfolding flush
flush-compression env w c wire = split (w.conns c).send_queue refl
  where
    split :
        (q : List MessageContext)
        → (w.conns c).send_queue ≡ q
        → (flush env w c wire).1.compression_type ≡ wire.compression_type
    split [] e = rw (e, flush) refl
    split (mp ∷ q) e =
        let r = pack env (as_list wire.oversized_msg_pack) (mp ∷ q) in
        rw (e, flush)
          (write_packet-compression env (record wire { oversized_msg_pack = r.oversized })
            (env.marshal_packet r.messages))

-- The frames around packets of these messages.
abbrev pub frames : (List MessageContext → List ℕ) → List (List MessageContext) → List (List ℕ)
frames marshal [] = []
frames marshal (p ∷ ps) = frame 0 (marshal p) ∷ frames marshal ps

abbrev pub all_messages : List (List MessageContext) → List MessageContext
all_messages [] = []
all_messages (p ∷ ps) = p ++ all_messages ps

-- Packets whose frames were written, and which hold the messages that waited but for the one that is
-- put aside.
abbrev pub Delivered : (List MessageContext → List ℕ) → World → ConnRef → Wire → Wire → Type 0
Delivered marshal w c before after =
    (ps : List (List MessageContext)) × (after.written ≡ before.written ++ frames marshal ps)
    × (all_messages ps ++ as_list after.oversized_msg_pack ≡ waiting w c before)

module _ (env : Env) (c : ConnRef) (marshal : List MessageContext → List ℕ)
    (marshals : (ms : List MessageContext) → env.marshal_packet ms ≡ some (marshal ms))
    (sized : (ms : List MessageContext) → length (marshal ms) ≡ env.packet_size ms) where
  sized_as :
      (ms : List MessageContext) (bs : List ℕ)
      → env.marshal_packet ms ≡ some bs
      → length bs ≡ env.packet_size ms
  sized_as ms bs e = ground (arith, e, marshals ms, sized ms)

  -- One flush of a queue that is not empty, and the others.
  Delivered-flush :
      (w : World) (wire after : Wire)
      → AllFit env (waiting w c wire)
      → wire.compression_type ≡ 0
      → (w.conns c).send_queue ≢ []
      → let s = flush env w c wire in
        Delivered marshal s.0 c s.1 after → Delivered marshal w c wire after
  Delivered-flush w wire after fit plain there (ps, written, held) =
      let now = sent_now env w c wire in
      (
        now ∷ ps,
        written
            ∙ ap (λ t. t ++ frames marshal ps)
                (flush-writes env w c wire (marshal now) sized_as fit there plain (marshals now))
            ∙ append_assoc wire.written (frame 0 (marshal now) ∷ []) (frames marshal ps),
        append_assoc now (all_messages ps) (as_list after.oversized_msg_pack)
            ∙ ap (λ t. now ++ t) held
            ∙ flush-waiting env w c wire,
      )

  Delivered-empty :
      (n : ℕ) (w : World) (wire : Wire)
      → (w.conns c).send_queue ≡ []
      → let r = flush_times env c n (w, wire) in
        ((r.0.conns c).send_queue ≡ []) × Delivered marshal w c wire r.1
  Delivered-empty n w wire e =
      rw (flush_times-empty env c n w wire e)
        (e, ([], sym (append-nil wire.written), rw e (sym (append-nil _))))

  -- As many flushes as messages are in the queue empty it. What they write to the socket are frames
  -- around packets, in which the messages that waited stand in the order in which they were queued,
  -- each once, except for at most one that was put aside last. This is where nothing is compressed,
  -- each of the messages fits into a packet on its own, every packet can be marshalled and
  -- `proto.Size` is the length of what `proto.Marshal` gives.
  pub flush_times-delivers :
      (n : ℕ) (w : World) (wire : Wire)
      → AllFit env (waiting w c wire)
      → wire.compression_type ≡ 0
      → length (w.conns c).send_queue ≤ n
      → let r = flush_times env c n (w, wire) in
        ((r.0.conns c).send_queue ≡ []) × Delivered marshal w c wire r.1
  unfolding flush_times
  flush_times-delivers zero w wire fit plain h =
      Delivered-empty zero w wire (empty (w.conns c).send_queue h)
  flush_times-delivers (suc n) w wire fit plain h =
      let s = flush env w c wire in
      split
        (flush_times-delivers n s.0 s.1
          (AllFit-suffix env (sent_now env w c wire) (waiting s.0 c s.1)
            (subst (AllFit env) (sym (flush-waiting env w c wire)) fit))
          (flush-compression env w c wire ∙ plain) (flush-shorter env w c wire n h))
        (w.conns c).send_queue refl
    where
      Result : World × Wire → World → Wire → Type 0
      Result r v before = ((r.0.conns c).send_queue ≡ []) × Delivered marshal v c before r.1

      split :
          (let s = flush env w c wire in Result (flush_times env c n s) s.0 s.1)
          → (q : List MessageContext) → (w.conns c).send_queue ≡ q
          → Result (flush_times env c (suc n) (w, wire)) w wire
      split rest [] e = Delivered-empty (suc n) w wire e
      split rest (mp ∷ q) e = (
        rest.0,
        Delivered-flush w wire (flush_times env c n (flush env w c wire)).1 fit plain
            (λ k. ground (arith, e, k)) rest.1,
      )
