-- ===== src/Spatial/Interest/Frame.antt =====
-- What `handleSubToChannel` and `handleUnsubFromChannel` leave as it was: the queues of the channels
-- (pkg/channeld/message.go and pkg/channeld/subscription.go).
use channeld.Base.{
  ℕ, ◌≡◌, refl, ◌∙◌, ap, Bool, true, false, not, ◌&&◌, Option, none, some, ◌==◌, if◌then◌else◌,
  arith, Bool-cases, Option-cases, inl, inr, if-cases, update, lookup,
}
use channeld.World.Types.{
  ConnRef, ChanRef, World, Env, Channel, MessageContext, SubOptions, Options, ChannelSubscription,
  sub_to_channel, unsub_from_channel, sender,
}
use channeld.World.Access.{get_connection, get_owner, is_live, set_owner, is_closing, send}
use channeld.World.Acl.{check_acl, is_granted, sub, unsub}
use channeld.World.Send.{send-chans}
use channeld.Subscription.{
  subscribe_to_channel, unsubscribe_from_channel, send_subscribed, send_unsubscribed,
  new_subscription, merge_subscription,
}
use channeld.Handlers.Subscribe.{
  handle_sub, handle_unsub, notify_subscribed, after_subscribe, after_unsub_owner,
  notify_unsubscribed, after_unsubscribe, conn_to_sub, may_act_on, other_owner,
}
use channeld.Spatial.Handover.Frame.{send-all_channels}

-- The queues, the marks of the channels that are being removed, and the channels by id.
abbrev pub Kept : World → World → Type 0
Kept w w' =
    ((x : ChanRef) → (w'.chans x).in_msg_queue ≡ (w.chans x).in_msg_queue)
    × ((x : ChanRef) → (w'.chans x).removing ≡ (w.chans x).removing)
    × (w'.all_channels ≡ w.all_channels)

pub Kept-refl : (w : World) → Kept w w
Kept-refl w = (λ x. refl, λ x. refl, refl)

Kept-trans : (u v w : World) → Kept u v → Kept v w → Kept u w
Kept-trans u v w (a, b, c) (a', b', c') = (λ x. a' x ∙ a x, λ x. b' x ∙ b x, c' ∙ c)

module _ (env : Env) (w : World) (c : ConnRef) where
  send-Kept : (ctx : MessageContext) → Kept w (send env w c ctx)
  send-Kept ctx = (
    λ x. ap (λ (f : ChanRef → Channel). (f x).in_msg_queue) (send-chans env w c ctx),
    λ x. ap (λ (f : ChanRef → Channel). (f x).removing) (send-chans env w c ctx),
    send-all_channels env w c ctx,
  )

  send_subscribed-Kept :
      (ctx : MessageContext) (ch : ChanRef) (d : ConnRef) (stub_id : ℕ) (o : Options)
      → Kept w (send_subscribed env w c ctx ch d stub_id o)
  unfolding send_subscribed
  send_subscribed-Kept ctx ch d stub_id o = send-Kept _

  send_unsubscribed-Kept :
      (ctx : MessageContext) (ch : ChanRef) (d : Option ConnRef) (stub_id : ℕ)
      → Kept w (send_unsubscribed env w c ctx ch d stub_id)
  unfolding send_unsubscribed
  send_unsubscribed-Kept ctx ch d stub_id = send-Kept _

  unsubscribe-Kept : (ch : ChanRef) → Kept w (unsubscribe_from_channel w c ch).0
  unfolding unsubscribe_from_channel update
  unsubscribe-Kept ch = (λ x. ground arith, λ x. ground arith, ground arith)

  new_subscription-Kept :
      (ch : ChanRef) (o : Option SubOptions) → Kept w (new_subscription env w c ch o).0
  unfolding new_subscription update
  new_subscription-Kept ch o = (λ x. ground arith, λ x. ground arith, ground arith)

  merge_subscription-Kept :
      (ch : ChanRef) (cs : ChannelSubscription) (o : Option SubOptions)
      → Kept w (merge_subscription env w c ch cs o).0
  unfolding merge_subscription update
  merge_subscription-Kept ch cs none = Kept-refl w
  merge_subscription-Kept ch cs (some s) = (λ x. ground arith, λ x. ground arith, ground arith)

  subscribe-Kept :
      (ch : ChanRef) (o : Option SubOptions) → Kept w (subscribe_to_channel env w c ch o).0
  unfolding subscribe_to_channel
  subscribe-Kept ch o = elim (Bool-cases (is_closing w c)) [
    | inl closed ↦ rw closed (Kept-refl w)
    | inr alive ↦ elim (Option-cases (lookup c (w.chans ch).subscribed_connections)) [
      | inl absent ↦ rw (alive, absent) (new_subscription-Kept ch o)
      | inr (cs, present) ↦ rw (alive, present) (merge_subscription-Kept ch cs o)
    ]
  ]

  set_owner-Kept : (ch : ChanRef) (o : Option ConnRef) → Kept w (set_owner w ch o)
  unfolding set_owner update
  set_owner-Kept ch o = (λ x. ground arith, λ x. ground arith, refl)

module _ (env : Env) (ctx : MessageContext) (c : ConnRef) (ch : ChanRef) where
  notify_subscribed-Kept :
      (w : World) (d : ConnRef) (o : Options) → Kept w (notify_subscribed env w ctx c ch d o)
  unfolding notify_subscribed
  notify_subscribed-Kept w d o =
      Kept-trans w w₂ (notify_subscribed env w ctx c ch d o) (Kept-trans w w₁ w₂ first second)
        (to_owner (other_owner w₂ c (get_owner w₂ ch)))
    where
      w₁ : World
      w₁ = send_subscribed env w c ctx ch d ctx.stub_id o

      w₂ : World
      w₂ = if d == c then w₁ else send_subscribed env w₁ d ctx ch d 0 o

      first : Kept w w₁
      first = send_subscribed-Kept env w c ctx ch d ctx.stub_id o

      second : Kept w₁ w₂
      second =
          if-cases (Kept w₁) (d == c) (λ self. Kept-refl w₁)
            (λ other. send_subscribed-Kept env w₁ d ctx ch d 0 o)

      to_owner :
          (owner : Option ConnRef)
          → Kept w₂ (elim owner [ none ↦ w₂ | some x ↦ send_subscribed env w₂ x ctx ch d 0 o ])
      to_owner none = Kept-refl w₂
      to_owner (some x) = send_subscribed-Kept env w₂ x ctx ch d 0 o

  after_subscribe-Kept :
      (w : World) (d : ConnRef) (r : World × Option ChannelSubscription × Bool)
      → Kept w r.0
      → Kept w (after_subscribe env ctx c ch d r)
  unfolding after_subscribe
  after_subscribe-Kept w d (w', none, told) kept = kept
  after_subscribe-Kept w d (w', some cs, false) kept = kept
  after_subscribe-Kept w d (w', some cs, true) kept =
      Kept-trans w w' (notify_subscribed env w' ctx c ch d cs.options) kept
        (notify_subscribed-Kept w' d cs.options)

  after_unsub_owner-Kept :
      (w : World) (d : ConnRef) (o : Option ConnRef) → Kept w (after_unsub_owner env w ctx c ch d o)
  unfolding after_unsub_owner
  after_unsub_owner-Kept w d none = Kept-refl w
  after_unsub_owner-Kept w d (some o) =
      if-cases (Kept w) (is_live w (some o))
        (λ live.
          if-cases (Kept w) (not (o == c) && not (o == d))
            (λ told. send_unsubscribed-Kept env w o ctx ch (some d) 0)
            (λ untold.
              if-cases (Kept w) (o == d) (λ own. set_owner-Kept env w o ch none)
                (λ other. Kept-refl w)))
        (λ dead. Kept-refl w)

  notify_unsubscribed-Kept :
      (w : World) (d : ConnRef) → Kept w (notify_unsubscribed env w ctx c ch d)
  unfolding notify_unsubscribed
  notify_unsubscribed-Kept w d =
      Kept-trans w w₂ (notify_unsubscribed env w ctx c ch d) (Kept-trans w w₁ w₂ first second)
        (after_unsub_owner-Kept w₂ d (get_owner w₂ ch))
    where
      w₁ : World
      w₁ = send_unsubscribed env w c ctx ch (some d) ctx.stub_id

      w₂ : World
      w₂ = if d == c then w₁ else send_unsubscribed env w₁ d ctx ch (some d) 0

      first : Kept w w₁
      first = send_unsubscribed-Kept env w c ctx ch (some d) ctx.stub_id

      second : Kept w₁ w₂
      second =
          if-cases (Kept w₁) (d == c) (λ self. Kept-refl w₁)
            (λ other. send_unsubscribed-Kept env w₁ d ctx ch (some d) 0)

  after_unsubscribe-Kept :
      (w : World) (d : ConnRef) (r : World × Option Options)
      → Kept w r.0
      → Kept w (after_unsubscribe env ctx c ch d r)
  unfolding after_unsubscribe
  after_unsubscribe-Kept w d (w', none) kept = kept
  after_unsubscribe-Kept w d (w', some o) kept =
      Kept-trans w w' (notify_unsubscribed env w' ctx c ch d) kept (notify_unsubscribed-Kept w' d)

  pub handle_sub-Kept :
      (w : World) (id : ℕ) (o : Option SubOptions)
      → ctx.msg ≡ sub_to_channel id o
      → Kept w (handle_sub env w ctx c ch)
  unfolding handle_sub
  handle_sub-Kept w id o named = elim (Option-cases (conn_to_sub w c id)) [
    | inl absent ↦ rw (handle_sub, named, absent) (Kept-refl w)
    | inr (d, there) ↦
        rw (handle_sub, named, there)
          (if-cases (Kept w) (may_act_on w c d (is_granted (check_acl env w ch (sender c) sub)))
            (λ granted.
              after_subscribe-Kept w d (subscribe_to_channel env w d ch o)
                (subscribe-Kept env w d ch o))
            (λ refused. Kept-refl w))
  ]

  pub handle_unsub-Kept :
      (w : World) (id : ℕ) → ctx.msg ≡ unsub_from_channel id → Kept w (handle_unsub env w ctx c ch)
  unfolding handle_unsub
  handle_unsub-Kept w id named = elim (Option-cases (get_connection w id)) [
    | inl absent ↦ rw (handle_unsub, named, absent) (Kept-refl w)
    | inr (d, there) ↦
        rw (handle_unsub, named, there)
          (if-cases (Kept w) (may_act_on w c d (is_granted (check_acl env w ch (sender c) unsub)))
            (λ granted.
              after_unsubscribe-Kept w d (unsubscribe_from_channel w d ch)
                (unsubscribe-Kept env w d ch))
            (λ refused. Kept-refl w))
  ]
