-- ===== src/Handlers/Subscribe/Own.antt =====
-- Whose subscriptions a connection can change (`handleSubToChannel` and `handleUnsubFromChannel` of
-- pkg/channeld/message.go).
use channeld.Base.{ℕ, ◌≡◌, refl, ◌≢◌, Bool, true, false, Option, none, some, arith, lookup}
use channeld.World.Types.{
  ConnRef, ChanRef, World, Env, MessageContext, Message, sub_to_channel, unsub_from_channel,
  ChannelSubscription, SubOptions, Options, sender,
}
use channeld.World.Access.{get_connection, client}
use channeld.World.Acl.{check_acl, is_granted, sub, unsub}
use channeld.World.Send.{send-chans}
use channeld.Subscription.{subscribe_to_channel, send_subscribed}
use channeld.Subscription.Queue.{subscribe-others}
use channeld.Handlers.Subscribe.{
  handle_sub, handle_unsub, conn_to_sub, after_subscribe, notify_subscribed,
}

abbrev pub subs : World → ChanRef → ConnRef → Option ChannelSubscription
subs w ch d = lookup d (w.chans ch).subscribed_connections

notify_subscribed-chans :
    (env : Env) (w : World) (ctx : MessageContext) (c : ConnRef) (ch : ChanRef) (target : ConnRef)
    (o : Options)
    → (notify_subscribed env w ctx c ch target o).chans ≡ w.chans
unfolding notify_subscribed send_subscribed
notify_subscribed-chans env w ctx c ch target o = grind (arith, send-chans)

after_subscribe-subs :
    (env : Env) (ctx : MessageContext) (c : ConnRef) (ch : ChanRef) (target d : ConnRef)
    (r : World × Option ChannelSubscription × Bool)
    → subs (after_subscribe env ctx c ch target r) ch d ≡ subs r.0 ch d
unfolding after_subscribe
after_subscribe-subs env ctx c ch target d (w, none, send) = refl
after_subscribe-subs env ctx c ch target d (w, some cs, false) = refl
after_subscribe-subs env ctx c ch target d (w, some cs, true) =
    rw (notify_subscribed-chans env w ctx c ch target cs.options)

-- A client can subscribe only itself: whatever its message to `handleSubToChannel` says, every other
-- connection keeps the subscription to the channel that it had.
pub handle_sub-own :
    (env : Env) (w : World) (ctx : MessageContext) (c d : ConnRef) (ch : ChanRef)
    → (w.conns c).connection_type ≡ client
    → d ≢ c
    → subs (handle_sub env w ctx c ch) ch d ≡ subs w ch d
unfolding handle_sub conn_to_sub
handle_sub-own env w ctx c d ch is_client ne = on_message ctx.msg refl
  where
    on_message : (m : Message) → ctx.msg ≡ m → subs (handle_sub env w ctx c ch) ch d ≡ subs w ch d
    on_message (sub_to_channel id options) e = ground (
      arith,
      after_subscribe-subs env ctx c ch c d (subscribe_to_channel env w c ch options),
      subscribe-others env w c d ch options ne,
    )
    on_message _ e = ground arith

-- Without the access that the settings ask for, a message to subscribe a connection with another id
-- changes nothing.
handle_sub-refused :
    (env : Env) (w : World) (ctx : MessageContext) (c target : ConnRef) (ch : ChanRef) (id : ℕ)
    (options : Option SubOptions)
    → ctx.msg ≡ sub_to_channel id options
    → conn_to_sub w c id ≡ some target
    → (w.conns target).id ≢ (w.conns c).id
    → is_granted (check_acl env w ch (sender c) sub) ≡ false
    → handle_sub env w ctx c ch ≡ w
unfolding handle_sub
handle_sub-refused env w ctx c target ch id options names found ne no_access = ground arith

-- Without the access that the settings ask for, a message to unsubscribe a connection with another
-- id changes nothing.
handle_unsub-refused :
    (env : Env) (w : World) (ctx : MessageContext) (c target : ConnRef) (ch : ChanRef) (id : ℕ)
    → ctx.msg ≡ unsub_from_channel id
    → get_connection w id ≡ some target
    → (w.conns target).id ≢ (w.conns c).id
    → is_granted (check_acl env w ch (sender c) unsub) ≡ false
    → handle_unsub env w ctx c ch ≡ w
unfolding handle_unsub
handle_unsub-refused env w ctx c target ch id names found ne no_access = ground arith
