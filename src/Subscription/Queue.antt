-- ===== src/Subscription/Queue.antt =====
-- Subscriptions and the fan-out queue (pkg/channeld/subscription.go).
use channeld.Base.{
  ℕ, suc, ◌-◌, ◌≡◌, refl, ◌≢◌, Bool, true, false, Option, none, some, List, [], ◌∷◌, ◌==◌,
  if◌then◌else◌, arith, lookup, lookup-insert, lookup-remove, has_key, update, if-cases,
}
use channeld.World.Types.{
  ConnRef, ChanRef, World, Env, SubOptions, ChannelSubscription, FanOutConnection,
}
use channeld.World.Access.{is_closing}
use channeld.Subscription.{
  subscribe_to_channel, new_subscription, merge_subscription, unsubscribe_from_channel,
  remove_element,
}

-- How many elements of the fan-out queue belong to a connection.
abbrev pub elements : ConnRef → List FanOutConnection → ℕ
elements c [] = 0
elements c (foc ∷ q) = let rest = elements c q in if foc.conn == c then suc rest else rest

elements-step :
    (foc : FanOutConnection) (c d : ConnRef) (q rest : List FanOutConnection)
    → elements d rest ≡ (if c == d then elements d q - 1 else elements d q)
    → elements d (if foc.conn == c then q else foc ∷ rest)
      ≡ (if c == d then elements d (foc ∷ q) - 1 else elements d (foc ∷ q))
elements-step foc c d q rest ih = ground arith

elements-remove_element :
    (c d : ConnRef) (q : List FanOutConnection)
    → elements d (remove_element c q) ≡ (if c == d then elements d q - 1 else elements d q)
unfolding remove_element
elements-remove_element c d [] = ground arith
elements-remove_element c d (foc ∷ q) =
    elements-step foc c d q (remove_element c q) (elements-remove_element c d q)

-- A connection that is not closing has one element in the queue if it is subscribed, and none
-- otherwise.
abbrev pub Matches : World → ChanRef → ConnRef → Type 0
Matches w ch c =
    elements c (w.chans ch).fan_out_queue
    ≡ (if has_key c (w.chans ch).subscribed_connections then 1 else 0)

new_subscription-Matches :
    (env : Env) (w : World) (c : ConnRef) (ch : ChanRef) (options : Option SubOptions) (d : ConnRef)
    → lookup c (w.chans ch).subscribed_connections ≡ none
    → Matches w ch d
    → Matches (new_subscription env w c ch options).0 ch d
unfolding new_subscription update
new_subscription-Matches env w c ch options d absent before = ground (
  arith,
  lookup-insert c d (new_subscription env w c ch options).1 (w.chans ch).subscribed_connections,
)

merge_subscription-Matches :
    (env : Env) (w : World) (c : ConnRef) (ch : ChanRef) (cs : ChannelSubscription)
    (options : Option SubOptions) (d : ConnRef)
    → lookup c (w.chans ch).subscribed_connections ≡ some cs
    → Matches w ch d
    → Matches (merge_subscription env w c ch cs options).0 ch d
unfolding merge_subscription update
merge_subscription-Matches env w c ch cs none d present before = before
merge_subscription-Matches env w c ch cs (some s) d present before = ground (
  arith,
  lookup-insert c d (record cs { options = env.merge_options cs.options s })
      (w.chans ch).subscribed_connections,
)

unsubscribe-Matches :
    (w : World) (c : ConnRef) (ch : ChanRef) (d : ConnRef)
    → Matches w ch d
    → Matches (unsubscribe_from_channel w c ch).0 ch d
unfolding unsubscribe_from_channel update
unsubscribe-Matches w c ch d before = ground (
  arith,
  lookup-remove c d (w.chans ch).subscribed_connections,
  elements-remove_element c d (w.chans ch).fan_out_queue,
)

subscribe-Matches :
    (env : Env) (w : World) (c : ConnRef) (ch : ChanRef) (options : Option SubOptions) (d : ConnRef)
    → Matches w ch d
    → Matches (subscribe_to_channel env w c ch options).0 ch d
unfolding subscribe_to_channel
subscribe-Matches env w c ch options d before =
    if-cases (λ (r : World × Option ChannelSubscription × Bool). Matches r.0 ch d) (is_closing w c)
      (λ closed. before) λ alive. split (lookup c (w.chans ch).subscribed_connections) refl
  where
    split :
        (o : Option ChannelSubscription)
        → lookup c (w.chans ch).subscribed_connections ≡ o
        → let r : World × Option ChannelSubscription × Bool = elim o [
          | some cs ↦ merge_subscription env w c ch cs options
          | none ↦ let (w', cs) = new_subscription env w c ch options in (w', some cs, true)
        ] in
          Matches r.0 ch d
    split none e = new_subscription-Matches env w c ch options d e before
    split (some cs) e = merge_subscription-Matches env w c ch cs options d e before

-- Subscribing and unsubscribing a connection keep the fan-out queue in step with the subscriptions:
-- a connection for which it was so keeps exactly one element if it is subscribed afterwards, and
-- none if it is not.
pub subscriptions-Matches :
    (env : Env) (w : World) (c : ConnRef) (ch : ChanRef) (options : Option SubOptions) (d : ConnRef)
    → Matches w ch d
    → Matches (subscribe_to_channel env w c ch options).0 ch d
      × Matches (unsubscribe_from_channel w c ch).0 ch d
subscriptions-Matches env w c ch options d before =
    (subscribe-Matches env w c ch options d before, unsubscribe-Matches w c ch d before)

-- Without an earlier subscription, `SubscribeToChannel` is `new_subscription`.
pub subscribe_fresh :
    (env : Env) (w : World) (c : ConnRef) (ch : ChanRef) (options : Option SubOptions)
    → is_closing w c ≡ false
    → lookup c (w.chans ch).subscribed_connections ≡ none
    → subscribe_to_channel env w c ch options ≡ (
      (new_subscription env w c ch options).0,
      some (new_subscription env w c ch options).1,
      true,
    )
unfolding subscribe_to_channel
subscribe_fresh env w c ch options alive absent = rw (alive, absent)

new_subscription-others :
    (env : Env) (w : World) (c d : ConnRef) (ch : ChanRef) (options : Option SubOptions)
    → (c == d) ≡ false
    → lookup d ((new_subscription env w c ch options).0.chans ch).subscribed_connections
      ≡ lookup d (w.chans ch).subscribed_connections
unfolding new_subscription update
new_subscription-others env w c d ch options ne = ground (
  arith,
  lookup-insert c d (new_subscription env w c ch options).1 (w.chans ch).subscribed_connections,
)

merge_subscription-others :
    (env : Env) (w : World) (c d : ConnRef) (ch : ChanRef) (cs : ChannelSubscription)
    (options : Option SubOptions)
    → (c == d) ≡ false
    → lookup d ((merge_subscription env w c ch cs options).0.chans ch).subscribed_connections
      ≡ lookup d (w.chans ch).subscribed_connections
unfolding merge_subscription update
merge_subscription-others env w c d ch cs none ne = refl
merge_subscription-others env w c d ch cs (some s) ne = ground (
  arith,
  lookup-insert c d (record cs { options = env.merge_options cs.options s })
      (w.chans ch).subscribed_connections,
)

-- Subscribing a connection leaves the subscriptions of the others alone.
pub subscribe-others :
    (env : Env) (w : World) (c d : ConnRef) (ch : ChanRef) (options : Option SubOptions)
    → d ≢ c
    → lookup d ((subscribe_to_channel env w c ch options).0.chans ch).subscribed_connections
      ≡ lookup d (w.chans ch).subscribed_connections
unfolding subscribe_to_channel
subscribe-others env w c d ch options ne = split (lookup c (w.chans ch).subscribed_connections) refl
  where
    split :
        (o : Option ChannelSubscription)
        → lookup c (w.chans ch).subscribed_connections ≡ o
        → lookup d ((subscribe_to_channel env w c ch options).0.chans ch).subscribed_connections
          ≡ lookup d (w.chans ch).subscribed_connections
    split none e = ground (arith, new_subscription-others env w c d ch options, ne)
    split (some cs) e = ground (arith, merge_subscription-others env w c d ch cs options, ne)
