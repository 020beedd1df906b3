-- ===== src/Spatial/Handover/Frame.antt =====
-- What subscribing, unsubscribing and sending leave as it was: owners, the channels by id, who is
-- closing, and the handover messages in the queues (pkg/channeld/spatial.go).
use channeld.Base.{
  ℕ, ◌+◌, ◌≡◌, refl, ◌∙◌, ap, false, ◌&&◌, Option, none, some, List, [], ◌∷◌, ◌++◌, ◌==◌,
  if◌then◌else◌, arith, update, lookup, Option-cases, Bool-cases, inl, inr,
}
use channeld.World.Types.{
  ConnRef, ChanRef, World, Env, MessageContext, SubOptions, ChannelSubscription, Options,
}
use channeld.World.Access.{send, is_closing, get_owner}
use channeld.World.Send.{receives, send-chans, send-send_queue, send-is_closing}
use channeld.Subscription.{
  subscribe_to_channel, unsubscribe_from_channel, send_subscribed, new_subscription,
  merge_subscription,
}
use channeld.Spatial.Handover.{handover_type}

-- How many handover messages a queue has.
abbrev pub handovers : List MessageContext → ℕ
handovers [] = 0
handovers (ctx ∷ q) = (if ctx.msg_type == handover_type then 1 else 0) + handovers q

handovers-append :
    (q : List MessageContext) (ctx : MessageContext)
    → handovers (q ++ ctx ∷ []) ≡ handovers q + (if ctx.msg_type == handover_type then 1 else 0)
handovers-append [] ctx = omega arith
handovers-append (x ∷ q) ctx = ground (arith, handovers-append q ctx)

-- A step of one connection that leaves these things as they were.
abbrev pub Quiet : World → World → Type 0
Quiet w w' =
    ((d : ConnRef) → handovers (w'.conns d).send_queue ≡ handovers (w.conns d).send_queue)
    × ((d : ConnRef) → is_closing w' d ≡ is_closing w d)
    × ((x : ChanRef) → get_owner w' x ≡ get_owner w x)
    × (w'.all_channels ≡ w.all_channels)

pub Quiet-refl : (w : World) → Quiet w w
Quiet-refl w = (λ d. refl, λ d. refl, λ x. refl, refl)

pub Quiet-trans : (u v w : World) → Quiet u v → Quiet v w → Quiet u w
Quiet-trans u v w (a, b, c, e) (a', b', c', e') =
    (λ d. a' d ∙ a d, λ d. b' d ∙ b d, λ x. c' x ∙ c x, e' ∙ e)

module _ (env : Env) (w : World) (c : ConnRef) where
  -- One more handover message in the queue of its receiver.
  pub send-handovers :
      (ctx : MessageContext) (d : ConnRef)
      → handovers ((send env w c ctx).conns d).send_queue
        ≡ handovers (w.conns d).send_queue
          + (if c == d && receives env w c ctx && (ctx.msg_type == handover_type) then 1 else 0)
  send-handovers ctx d =
      ap handovers (send-send_queue env w c ctx d)
      ∙ ground (arith, handovers-append (w.conns d).send_queue ctx)

  pub send-all_channels : (ctx : MessageContext) → (send env w c ctx).all_channels ≡ w.all_channels
  unfolding send
  send-all_channels ctx = ground arith

  pub send-Quiet :
      (ctx : MessageContext) → (ctx.msg_type == handover_type) ≡ false → Quiet w (send env w c ctx)
  send-Quiet ctx other = (
    λ d. ground (arith, send-handovers ctx d, other),
    send-is_closing env w c ctx,
    λ x. ap (λ (f : ChanRef → _). (f x).owner_connection) (send-chans env w c ctx),
    send-all_channels ctx,
  )

  pub send_subscribed-Quiet :
      (ctx : MessageContext) (ch : ChanRef) (d : ConnRef) (stub_id : ℕ) (o : Options)
      → Quiet w (send_subscribed env w c ctx ch d stub_id o)
  unfolding send_subscribed
  send_subscribed-Quiet ctx ch d stub_id o = send-Quiet _ refl

  pub unsubscribe-Quiet : (ch : ChanRef) → Quiet w (unsubscribe_from_channel w c ch).0
  unfolding unsubscribe_from_channel update is_closing
  unsubscribe-Quiet ch = (λ d. ground arith, λ d. ground arith, λ x. ground arith, ground arith)

  new_subscription-Quiet :
      (ch : ChanRef) (o : Option SubOptions) → Quiet w (new_subscription env w c ch o).0
  unfolding new_subscription update is_closing
  new_subscription-Quiet ch o =
      (λ d. ground arith, λ d. ground arith, λ x. ground arith, ground arith)

  merge_subscription-Quiet :
      (ch : ChanRef) (cs : ChannelSubscription) (o : Option SubOptions)
      → Quiet w (merge_subscription env w c ch cs o).0
  unfolding merge_subscription update is_closing
  merge_subscription-Quiet ch cs none = Quiet-refl w
  merge_subscription-Quiet ch cs (some s) =
      (λ d. ground arith, λ d. ground arith, λ x. ground arith, ground arith)

  pub subscribe-Quiet :
      (ch : ChanRef) (o : Option SubOptions) → Quiet w (subscribe_to_channel env w c ch o).0
  unfolding subscribe_to_channel
  subscribe-Quiet ch o = elim (Bool-cases (is_closing w c)) [
    | inl closed ↦ rw (subscribe_to_channel, closed) (Quiet-refl w)
    | inr alive ↦ elim (Option-cases (lookup c (w.chans ch).subscribed_connections)) [
      | inl absent ↦ rw (subscribe_to_channel, alive, absent) (new_subscription-Quiet ch o)
      | inr (cs, present) ↦
          rw (subscribe_to_channel, alive, present) (merge_subscription-Quiet ch cs o)
    ]
  ]
