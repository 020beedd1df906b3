-- ===== src/Spatial/Handover/Loops.antt =====
-- The loops that send the handover messages (pkg/channeld/spatial.go).
use channeld.Base.{
  ℕ, ◌+◌, ◌≡◌, refl, ◌∙◌, ap, Bool, true, false, not, ◌&&◌, some, List, [], ◌∷◌, ◌==◌,
  if◌then◌else◌, arith, lookup, has_key, Bool-cases, inl, inr,
}
use channeld.World.Types.{ConnRef, World, Env, ChannelSubscription, MessageContext}
use channeld.World.Access.{is_closing, send}
use channeld.World.Send.{fits, send-is_closing}
use channeld.Channel.Broadcast.{Distinct}
use channeld.Spatial.Handover.{
  HandoverEnv, Moving, take_over_each, send_to_source, send_to_destination, send_any,
  handover_context, handover_type,
}
use channeld.Spatial.Handover.Frame.{handovers, Quiet, send-handovers}
use channeld.Spatial.Handover.Owners.{take_over_each-Quiet}

-- The handover messages that a connection gets more.
abbrev pub Gets : World → World → ConnRef → ℕ → Type 0
Gets w w' d n =
    (handovers (w'.conns d).send_queue ≡ handovers (w.conns d).send_queue + n)
    × (is_closing w' d ≡ is_closing w d)

abbrev pub one_if : Bool → ℕ
one_if b = if b then 1 else 0

pub Gets-refl : (w : World) (d : ConnRef) → Gets w w d 0
Gets-refl w d = (omega arith, refl)

pub Gets-trans :
    (u v w : World) (d : ConnRef) (m n : ℕ) → Gets u v d m → Gets v w d n → Gets u w d (m + n)
Gets-trans u v w d m n (a, b) (a', b') = (omega (arith, a, a'), b' ∙ b)

pub Quiet-Gets : (w w' : World) (d : ConnRef) → Quiet w w' → Gets w w' d 0
Quiet-Gets w w' d quiet = (omega (arith, quiet.0 d), quiet.1 d)

send-Gets :
    (env : Env) (w : World) (c : ConnRef) (ctx : MessageContext) (d : ConnRef)
    → (ctx.msg_type == handover_type) ≡ true
    → fits env ctx ≡ true
    → Gets w (send env w c ctx) d (one_if (c == d && not (is_closing w d)))
send-Gets env w c ctx d kind fit =
    (ground (arith, send-handovers env w c ctx d, kind, fit), send-is_closing env w c ctx d)

-- A loop over the subscriptions of a channel.
abbrev for_each : (World → ConnRef → World) → List (ConnRef × ChannelSubscription) → World → World
for_each f [] w = w
for_each f ((c, cs) ∷ rest) w = for_each f rest (f w c)

module _ (d : ConnRef) (f : World → ConnRef → World) (p : Bool)
    (each : (w : World) (c : ConnRef)
      → Gets w (f w c) d (one_if (c == d && p && not (is_closing w d)))) where
  for_each-absent :
      (subs : List (ConnRef × ChannelSubscription)) (w : World)
      → has_key d subs ≡ false
      → Gets w (for_each f subs w) d 0
  unfolding lookup
  for_each-absent [] w absent = Gets-refl w d
  for_each-absent ((c, cs) ∷ rest) w absent = elim (Bool-cases (c == d)) [
    | inl same ↦ ground (arith, absent, same)
    | inr other ↦
        let (sent, open_) = each w c in
        let (sent', open') = for_each-absent rest (f w c) (ground (arith, absent, other)) in
        (ground (arith, other, sent, sent'), open' ∙ open_)
  ]

  for_each-Gets :
      (subs : List (ConnRef × ChannelSubscription)) (w : World)
      → Distinct subs
      → Gets w (for_each f subs w) d (one_if (has_key d subs && p && not (is_closing w d)))
  unfolding lookup
  for_each-Gets [] w keys = ground arith
  for_each-Gets ((c, cs) ∷ rest) w keys = elim (Bool-cases (c == d)) [
    | inl same ↦
        let (sent, open_) = each w c in
        let (sent', open') =
          for_each-absent rest (f w c) (ap (λ k. has_key k rest) (ground (arith, same)) ∙ keys.0) in
        (ground (arith, same, sent, sent'), open' ∙ open_)
    | inr other ↦
        let (sent, open_) = each w c in
        let (sent', open') = for_each-Gets rest (f w c) keys.1 in
        (ground (arith, other, sent, sent', open_), open' ∙ open_)
  ]

module _ (env : Env) (ctx : MessageContext) (d : ConnRef)
    (dst_subs : List (ConnRef × ChannelSubscription))
    (kind : (ctx.msg_type == handover_type) ≡ true) (fit : fits env ctx ≡ true) where
  abbrev to_source : World → ConnRef → World
  to_source w c = if has_key c dst_subs then w else send env w c ctx

  to_source-Gets :
      (w : World) (c : ConnRef)
      → Gets w
          (to_source w c)
          d
          (one_if (c == d && not (has_key d dst_subs) && not (is_closing w d)))
  to_source-Gets w c =
      let (sent, open_) = send-Gets env w c ctx d kind fit in
      (ground (arith, sent), ground (arith, open_))

  send_to_source-for_each :
      (subs : List (ConnRef × ChannelSubscription)) (w : World)
      → send_to_source env w ctx subs dst_subs ≡ for_each to_source subs w
  unfolding send_to_source
  send_to_source-for_each [] w = refl
  send_to_source-for_each ((c, cs) ∷ rest) w = send_to_source-for_each rest (to_source w c)

  pub send_to_source-Gets :
      (subs : List (ConnRef × ChannelSubscription)) (w : World)
      → Distinct subs
      → Gets w
          (send_to_source env w ctx subs dst_subs)
          d
          (one_if (has_key d subs && not (has_key d dst_subs) && not (is_closing w d)))
  send_to_source-Gets subs w keys =
      rw (send_to_source-for_each subs w)
        (for_each-Gets d to_source (not (has_key d dst_subs)) to_source-Gets subs w keys)

-- Every message can be wrapped, and the handover message with it be packed within the size limit.
abbrev pub Sendable : Env → (src_id dst_id : ℕ) → Type 0
Sendable env src_id dst_id =
    (m ctx_id : ℕ)
    → (a : ℕ) × (env.wrap_any m ≡ some a)
      × (fits env (handover_context src_id dst_id a ctx_id) ≡ true)

module _ (h : HandoverEnv) (env : Env) (src_id dst_id ctx_id m : ℕ) (es : Moving) (d : ConnRef)
    (sendable : Sendable env src_id dst_id) where
  abbrev to_destination : World → ConnRef → World
  to_destination w c =
      let (w', m') = take_over_each h env w c (h.new_message m) es in
      send_any env w' c src_id dst_id ctx_id (env.wrap_any m')

  to_destination-Gets :
      (w : World) (c : ConnRef)
      → Gets w (to_destination w c) d (one_if (c == d && true && not (is_closing w d)))
  to_destination-Gets w c =
      let (w', m') = take_over_each h env w c (h.new_message m) es in
      let (a, wrapped, fit) = sendable m' ctx_id in
      let (same, open_) = Quiet-Gets w w' d (take_over_each-Quiet h env es w c (h.new_message m)) in
      let (sent, open') = send-Gets env w' c (handover_context src_id dst_id a ctx_id) d refl fit in
      rw wrapped (ground (arith, same, sent, open_), open' ∙ open_)

  send_to_destination-for_each :
      (subs : List (ConnRef × ChannelSubscription)) (w : World)
      → send_to_destination h env w src_id dst_id ctx_id m es subs ≡ for_each to_destination subs w
  unfolding send_to_destination
  send_to_destination-for_each [] w = refl
  send_to_destination-for_each ((c, cs) ∷ rest) w =
      send_to_destination-for_each rest (to_destination w c)

  pub send_to_destination-Gets :
      (subs : List (ConnRef × ChannelSubscription)) (w : World)
      → Distinct subs
      → Gets w
          (send_to_destination h env w src_id dst_id ctx_id m es subs)
          d
          (one_if (has_key d subs && true && not (is_closing w d)))
  send_to_destination-Gets subs w keys =
      rw (send_to_destination-for_each subs w)
        (for_each-Gets d to_destination true to_destination-Gets subs w keys)
