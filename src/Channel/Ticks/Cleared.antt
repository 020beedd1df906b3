-- ===== src/Channel/Ticks/Cleared.antt =====
-- Which subscriptions `tickConnections` removes (pkg/channeld/channel.go).
use channeld.Base.{
  ◌≡◌, ◌⊎◌, inl, inr, is_some, refl, ◌∙◌, ap, Bool, true, false, ◌&&◌, Option, none, some, List, [],
  ◌∷◌, ◌==◌, if◌then◌else◌, lookup, lookup-remove, has_key, update, arith,
}
use channeld.World.Types.{
  ConnRef, ChanRef, World, Env, HandleRef, ChannelSubscription, MessageContext, Channel,
}
use channeld.Subscription.{send_unsubscribed}
use channeld.World.Access.{is_closing, send, get_owner, set_chan}
use channeld.World.Send.{send-chans, send-is_closing}
use channeld.Channel.{broadcast, broadcast_to, skipped}
use channeld.Channel.Ticks.{
  tick_connections, tick_from_key, visit_connection, clear_connection, set_aside, keep_subscription,
  after_owner, remove_after_owner, drop_subscription, tell_owner, owner_lost,
}

abbrev pub subscribed : World → ChanRef → ConnRef → Option ChannelSubscription
subscribed w ch d = lookup d (w.chans ch).subscribed_connections

-- Nothing that the loop reads of the connections or the subscriptions changes.
abbrev SameSubs : ChanRef → World → World → Type 0
SameSubs ch w w' =
    ((w'.chans ch).subscribed_connections ≡ (w.chans ch).subscribed_connections)
    × ((d : ConnRef) → is_closing w' d ≡ is_closing w d)

broadcast_to-SameSubs :
    (env : Env) (ch : ChanRef) (ctx : MessageContext) (subs : List (ConnRef × ChannelSubscription))
    (w : World)
    → SameSubs ch w (broadcast_to env w ch ctx subs)
unfolding broadcast_to
broadcast_to-SameSubs env ch ctx [] w = (refl, λ d. refl)
broadcast_to-SameSubs env ch ctx ((c, cs) ∷ rest) w =
    let w' = if skipped w ch ctx c then w else send env w c ctx in
    let later = broadcast_to-SameSubs env ch ctx rest w' in
    (
      ground (arith, later.0, send-chans env w c ctx),
      λ d. ground (arith, later.1 d, send-is_closing env w c ctx d),
    )

keep_subscription-SameSubs :
    (w : World) (ch : ChanRef) (c : ConnRef) (h : HandleRef) (o : Option ChannelSubscription)
    → SameSubs ch w (keep_subscription w ch c h o)
unfolding set_chan update is_closing
keep_subscription-SameSubs w ch c h none = (refl, λ d. refl)
keep_subscription-SameSubs w ch c h (some cs) = (ground arith, λ d. ground arith)

set_aside-SameSubs :
    (env : Env) (w : World) (ch : ChanRef) (c : ConnRef) (h : Option HandleRef)
    → SameSubs ch w (set_aside env w ch c h)
unfolding set_aside broadcast
set_aside-SameSubs env w ch c none = (refl, λ d. refl)
set_aside-SameSubs env w ch c (some h) =
    let w' = keep_subscription w ch c h (lookup c (w.chans ch).subscribed_connections) in
    let kept = keep_subscription-SameSubs w ch c h (lookup c (w.chans ch).subscribed_connections) in
    let sent =
      broadcast_to-SameSubs env ch (owner_lost (w.chans ch).id) (w'.chans ch).subscribed_connections
        w' in
    (ground (arith, kept.0, sent.0), λ d. ground (arith, kept.1 d, sent.1 d))

tell_owner-SameSubs :
    (env : Env) (w : World) (ch : ChanRef) (c : ConnRef) (o : Option ConnRef)
    → SameSubs ch w (tell_owner env w ch c o)
unfolding send_unsubscribed
tell_owner-SameSubs env w ch c none = (refl, λ d. refl)
tell_owner-SameSubs env w ch c (some owner) = (
  ap (λ (k : ChanRef → Channel). (k ch).subscribed_connections) (send-chans env w owner _),
  λ d. send-is_closing env w owner _ d,
)

after_owner-SameSubs :
    (env : Env) (w : World) (ch : ChanRef) (h : Option HandleRef)
    → SameSubs ch w (after_owner env w ch h).0
unfolding after_owner remove_after_owner update is_closing
after_owner-SameSubs env w ch h = (ground arith, λ d. ground arith)

-- A closing connection is no longer subscribed, and every other subscription is kept.
clear_connection-lookup :
    (env : Env) (w : World) (ch : ChanRef) (c d : ConnRef)
    → (subscribed (clear_connection env w ch c).0 ch d
        ≡ (if c == d then none else subscribed w ch d))
      × (is_closing (clear_connection env w ch c).0 d ≡ is_closing w d)
unfolding clear_connection set_chan update is_closing
clear_connection-lookup env w ch c d =
    let aside = set_aside env w ch c (w.conns c).recover_handle in
    let w' = drop_subscription aside ch c in
    let before = set_aside-SameSubs env w ch c (w.conns c).recover_handle in
    let owned = after_owner-SameSubs env w' ch (w.conns c).recover_handle in
    let told = tell_owner-SameSubs env w' ch c (get_owner w' ch) in
    (
      ground (
        arith,
        before.0,
        owned.0,
        told.0,
        lookup-remove c d (aside.chans ch).subscribed_connections,
      ),
      ground (arith, before.1 d, owned.1 d, told.1 d),
    )

-- What the loop does to the subscription of `d`.
abbrev Cleared :
    ChanRef → ConnRef → List (ConnRef × ChannelSubscription) → World → World × Bool → Type 0
Cleared ch d keys w r =
    (is_closing r.0 d ≡ is_closing w d)
    × (is_closing w d ≡ false → subscribed r.0 ch d ≡ subscribed w ch d)
    × (is_closing w d ≡ true
        → r.1 ≡ false
        → (has_key d keys ≡ true) ⊎ (subscribed w ch d ≡ none)
        → subscribed r.0 ch d ≡ none)

-- One key, given what its visit and the rest of the loop do.
Cleared-step :
    (ch : ChanRef) (c d : ConnRef) (cs : ChannelSubscription)
    (rest : List (ConnRef × ChannelSubscription)) (w v : World) (r : World × Bool)
    → is_closing v d ≡ is_closing w d
    → subscribed v ch d ≡ (if is_closing w c && c == d then none else subscribed w ch d)
    → Cleared ch d rest v r
    → Cleared ch d ((c, cs) ∷ rest) w r
unfolding lookup
Cleared-step ch c d cs rest w v r same visited later = (
  later.0 ∙ same,
  λ o. ground (arith, o, same, visited, later.1),
  λ closed going h. ground (arith, closed, going, h, same, visited, later.2),
)

visit_connection-lookup :
    (env : Env) (w : World) (ch : ChanRef) (c d : ConnRef)
    → (is_closing (visit_connection env w ch c).0 d ≡ is_closing w d)
      × (subscribed (visit_connection env w ch c).0 ch d
          ≡ (if is_closing w c && c == d then none else subscribed w ch d))
visit_connection-lookup env w ch c d = split (is_closing w c) refl
  where
    split :
        (b : Bool)
        → is_closing w c ≡ b
        → (is_closing (visit_connection env w ch c).0 d ≡ is_closing w d)
          × (subscribed (visit_connection env w ch c).0 ch d
              ≡ (if is_closing w c && c == d then none else subscribed w ch d))
    split true e =
        rw (e) ((clear_connection-lookup env w ch c d).1, (clear_connection-lookup env w ch c d).0)
    split false e = rw (e) (refl, refl)

tick_from_key-Cleared :
    (env : Env) (ch : ChanRef) (d : ConnRef) (keys : List (ConnRef × ChannelSubscription))
    (w : World) (stopped : Bool)
    → Cleared ch d keys w (tick_from_key env ch keys (w, stopped))
unfolding tick_from_key lookup
tick_from_key-Cleared env ch d [] w stopped = (refl, λ o. refl, λ c going h. ground (arith, h))
tick_from_key-Cleared env ch d ((c, cs) ∷ rest) w true =
    (refl, λ o. refl, λ x going h. ground (arith, going))
tick_from_key-Cleared env ch d ((c, cs) ∷ rest) w false =
    let v = visit_connection env w ch c in
    let one = visit_connection-lookup env w ch c d in
    Cleared-step ch c d cs rest w v.0 (tick_from_key env ch rest v) one.0 one.1
      (tick_from_key-Cleared env ch d rest v.0 v.1)

present : (o : Option ChannelSubscription) → (is_some o ≡ true) ⊎ (o ≡ none)
present none = inr refl
present (some cs) = inl refl

-- A connection that is open keeps its subscription. Unless the loop stops, because the owner has
-- closed and the channel goes with it, no closing connection is subscribed afterwards.
pub tick_connections-cleared :
    (env : Env) (w : World) (ch : ChanRef) (d : ConnRef)
    → let r = tick_connections env w ch in
      (is_closing w d ≡ false → subscribed r.0 ch d ≡ subscribed w ch d)
      × (is_closing w d ≡ true → r.1 ≡ false → subscribed r.0 ch d ≡ none)
unfolding tick_connections
tick_connections-cleared env w ch d =
    let all = tick_from_key-Cleared env ch d (w.chans ch).subscribed_connections w false in
    (all.1, λ closed going. all.2 closed going (present (subscribed w ch d)))
