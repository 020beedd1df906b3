-- ===== src/Handlers/Subscribe.antt =====
-- `handleSubToChannel` and `handleUnsubFromChannel` (pkg/channeld/message.go). `c` is the
-- connection in `ctx.Connection`, and `ch` the channel in `ctx.Channel`.
pub mod Own
use channeld.Base.{ℕ, Bool, true, false, not, ◌&&◌, Option, none, some, ◌==◌, opt_eq, if◌then◌else◌}
use channeld.World.Types.{
  ConnRef, ChanRef, World, Env, MessageContext, Message, sub_to_channel, unsub_from_channel,
  ChannelSubscription, SubOptions, Options, sender,
}
use channeld.World.Access.{get_connection, get_owner, is_live, set_owner, client}
use channeld.World.Acl.{check_acl, is_granted, sub, unsub}
use channeld.Subscription.{
  subscribe_to_channel, unsubscribe_from_channel, send_subscribed, send_unsubscribed,
}

-- A client subscribes itself; only a server can name another connection.
unfoldable pub conn_to_sub : World → ConnRef → ℕ → Option ConnRef
conn_to_sub w c conn_id =
    if (w.conns c).connection_type == client then some c else get_connection w conn_id

-- The owner, if it is live and not the sender.
abbrev pub other_owner : World → ConnRef → Option ConnRef → Option ConnRef
other_owner w c none = none
other_owner w c (some o) = if is_live w (some o) && not (o == c) then some o else none

-- The three notifications after a subscription.
unfoldable pub notify_subscribed :
    Env → World → MessageContext → ConnRef → ChanRef → ConnRef → Options → World
notify_subscribed env w ctx c ch target options =
    let w₁ = send_subscribed env w c ctx ch target ctx.stub_id options in
    let w₂ = if target == c then w₁ else send_subscribed env w₁ target ctx ch target 0 options in
    elim (other_owner w₂ c (get_owner w₂ ch)) [
      | none ↦ w₂
      | some o ↦ send_subscribed env w₂ o ctx ch target 0 options
    ]

unfoldable pub after_subscribe :
    Env
    → MessageContext
    → ConnRef
    → ChanRef
    → ConnRef
    → World × Option ChannelSubscription × Bool
    → World
unfolding notify_subscribed
after_subscribe env ctx c ch target (w, none, should_send) = w
after_subscribe env ctx c ch target (w, some cs, false) = w
after_subscribe env ctx c ch target (w, some cs, true) =
    notify_subscribed env w ctx c ch target cs.options

-- A connection may always subscribe itself; another one only with the access of the channel.
abbrev pub may_act_on : World → ConnRef → ConnRef → Bool → Bool
may_act_on w c target granted = if (w.conns target).id == (w.conns c).id then true else granted

unfoldable pub handle_sub : Env → World → MessageContext → ConnRef → ChanRef → World
unfolding conn_to_sub after_subscribe
handle_sub env w ctx c ch = elim ctx.msg [
  | sub_to_channel conn_id options ↦ elim (conn_to_sub w c conn_id) [
    | none ↦ w
    | some target ↦
        if may_act_on w c target (is_granted (check_acl env w ch (sender c) sub))
        then after_subscribe env ctx c ch target (subscribe_to_channel env w target ch options)
        else w
  ]
  | _ ↦ w
]

-- The owner hears of it, or loses the channel if it is the one that left.
unfoldable pub after_unsub_owner :
    Env → World → MessageContext → ConnRef → ChanRef → ConnRef → Option ConnRef → World
after_unsub_owner env w ctx c ch target none = w
after_unsub_owner env w ctx c ch target (some o) =
    if is_live w (some o)
    then if not (o == c) && not (o == target)
      then send_unsubscribed env w o ctx ch (some target) 0
      else if o == target
      then set_owner w ch none
      else w
    else w

unfoldable pub notify_unsubscribed :
    Env → World → MessageContext → ConnRef → ChanRef → ConnRef → World
unfolding after_unsub_owner
notify_unsubscribed env w ctx c ch target =
    let w₁ = send_unsubscribed env w c ctx ch (some target) ctx.stub_id in
    let w₂ = if target == c then w₁ else send_unsubscribed env w₁ target ctx ch (some target) 0 in
    after_unsub_owner env w₂ ctx c ch target (get_owner w₂ ch)

unfoldable pub after_unsubscribe :
    Env → MessageContext → ConnRef → ChanRef → ConnRef → World × Option Options → World
unfolding notify_unsubscribed
after_unsubscribe env ctx c ch target (w, none) = w
after_unsubscribe env ctx c ch target (w, some options) = notify_unsubscribed env w ctx c ch target

unfoldable pub handle_unsub : Env → World → MessageContext → ConnRef → ChanRef → World
unfolding after_unsubscribe
handle_unsub env w ctx c ch = elim ctx.msg [
  | unsub_from_channel conn_id ↦ elim (get_connection w conn_id) [
    | none ↦ w
    | some target ↦
        if may_act_on w c target (is_granted (check_acl env w ch (sender c) unsub))
        then after_unsubscribe env ctx c ch target (unsubscribe_from_channel w target ch)
        else w
  ]
  | _ ↦ w
]
