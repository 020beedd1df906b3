-- ===== src/Subscription/RoundTrip.antt =====
-- Subscribing and then unsubscribing, and the longest fan-out interval
-- (pkg/channeld/subscription.go).
use channeld.Base.{
  ◌≤◌, ◌<◌, ◌≡◌, false, Option, none, some, arith, lookup, lookup-insert, lookup-remove, update,
  insert, remove, ap, ◌∙◌, ==_iff, ==_self,
}
use channeld.World.Types.{
  ConnRef, ChanRef, World, Env, Options, SubOptions, ChannelSubscription, ChannelData,
}
use channeld.World.Access.{is_closing}
use channeld.Subscription.{
  subscribe_to_channel, new_subscription, merge_subscription, unsubscribe_from_channel, merged,
  default_sub_options, remove_element,
}
use channeld.Subscription.Queue.{subscribe_fresh}

-- What unsubscribing leaves of a subscription.
unsubscribe-fields :
    (w : World) (c : ConnRef) (ch : ChanRef) (cs : ChannelSubscription)
    → lookup c (w.chans ch).subscribed_connections ≡ some cs
    → let r = unsubscribe_from_channel w c ch in
      (r.1 ≡ some cs.options)
      × ((r.0.chans ch).fan_out_queue ≡ remove_element c (w.chans ch).fan_out_queue)
      × ((r.0.chans ch).subscribed_connections ≡ remove c (w.chans ch).subscribed_connections)
unfolding unsubscribe_from_channel update
unsubscribe-fields w c ch cs there =
    (ground (arith, there), ground (arith, there), ground (arith, there))

-- What a new subscription adds.
new_subscription-fields :
    (env : Env) (w : World) (c : ConnRef) (ch : ChanRef) (options : Option SubOptions)
    → let r = new_subscription env w c ch options in
      (r.1.options ≡ merged env (default_sub_options env (w.chans ch).channel_type) options)
      × (remove_element c (r.0.chans ch).fan_out_queue ≡ (w.chans ch).fan_out_queue)
      × ((r.0.chans ch).subscribed_connections ≡ insert c r.1 (w.chans ch).subscribed_connections)
unfolding new_subscription remove_element update
new_subscription-fields env w c ch options = (ground arith, ground arith, ground arith)

-- A connection that is not closing and not yet subscribed gets the default options of the channel
-- type with those of the message merged in. Unsubscribing it again returns these options, restores
-- the fan-out queue, and leaves every connection the subscription that it had.
unsubscribe-subscribe :
    (env : Env) (w : World) (c : ConnRef) (ch : ChanRef) (options : Option SubOptions)
    → is_closing w c ≡ false
    → lookup c (w.chans ch).subscribed_connections ≡ none
    → let w' = (subscribe_to_channel env w c ch options).0 in
      let r = unsubscribe_from_channel w' c ch in
      (r.1 ≡ some (merged env (default_sub_options env (w.chans ch).channel_type) options))
      × ((r.0.chans ch).fan_out_queue ≡ (w.chans ch).fan_out_queue)
      × ((d : ConnRef)
          → lookup d (r.0.chans ch).subscribed_connections
            ≡ lookup d (w.chans ch).subscribed_connections)
unsubscribe-subscribe env w c ch options alive absent =
    let cs = (new_subscription env w c ch options).1 in
    let added = new_subscription-fields env w c ch options in
    let undone = unsubscribe-fields (new_subscription env w c ch options).0 c ch cs (
      ap (lookup c) added.2
      ∙ lookup-insert c c cs (w.chans ch).subscribed_connections
      ∙ ground (arith, ==_self c)) in
    rw (subscribe_fresh env w c ch options alive absent) (
      undone.0 ∙ ap some added.0,
      undone.1 ∙ added.1,
      λ d.
          ap (lookup d) (undone.2 ∙ ap (remove c) added.2)
          ∙ lookup-remove c d (insert c cs (w.chans ch).subscribed_connections)
          ∙ ground
              (arith, lookup-insert c d cs (w.chans ch).subscribed_connections, absent, ==_iff c d),
    )

-- The channel data knows an interval that is no shorter than that of the subscription.
abbrev pub Covers : Option ChannelData → Options → Type 0
Covers none o = Unit {0}
Covers (some d) o = o.fan_out_interval_ms ≤ d.max_fan_out_interval_ms

-- The longest interval that the channel data has on record covers a new subscription, and still
-- covers every one that it covered before.
new_subscription-Covers :
    (env : Env) (w : World) (c : ConnRef) (ch : ChanRef) (options : Option SubOptions) (o : Options)
    → Covers (w.chans ch).channel_data o
    → let r = new_subscription env w c ch options in
      Covers (r.0.chans ch).channel_data r.1.options × Covers (r.0.chans ch).channel_data o
unfolding new_subscription update
new_subscription-Covers env w c ch options o before = ground arith

-- A connection that subscribes again with a longer interval than the one on record is not covered:
-- merging the options leaves the record as it was.
merge_subscription-uncovered :
    (env : Env) (w : World) (c : ConnRef) (ch : ChanRef) (cs : ChannelSubscription) (s : SubOptions)
    (d : ChannelData)
    → is_closing w c ≡ false
    → lookup c (w.chans ch).subscribed_connections ≡ some cs
    → (w.chans ch).channel_data ≡ some d
    → d.max_fan_out_interval_ms < (env.merge_options cs.options s).fan_out_interval_ms
    → let w' = (subscribe_to_channel env w c ch (some s)).0 in
      ¬ Covers (w'.chans ch).channel_data (env.merge_options cs.options s)
unfolding subscribe_to_channel merge_subscription update
merge_subscription-uncovered env w c ch cs s d alive present held longer =
    rw (alive, present) (λ covered. ground arith)
