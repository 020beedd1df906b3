-- ===== src/Subscription/Refines.antt =====
-- What the subscriptions of a channel are to the rest of the code: for each connection, options or none
-- (pkg/channeld/subscription.go).
use channeld.Base.{
  ℕ, ◌≡◌, refl, ◌∙◌, Bool, Option, none, some, List, [], ◌∷◌, ◌==◌, if◌then◌else◌, arith, lookup,
  lookup-insert, lookup-remove, update, Option-cases, Bool-cases, inl, inr,
}
use channeld.World.Types.{ConnRef, ChanRef, World, Env, Options, SubOptions, ChannelSubscription}
use channeld.World.Access.{is_closing}
use channeld.Subscription.{
  subscribe_to_channel, unsubscribe_from_channel, new_subscription, merge_subscription, merged,
  default_sub_options,
}

-- The requests of connections to a channel.
pub data Request : Type 0 where
  subscribing : ConnRef → Option SubOptions → Request
  unsubscribing : ConnRef → Request

-- The requests one after another, as the channel runs them.
abbrev pub run : Env → ChanRef → List Request → World → World
run env ch [] w = w
run env ch (subscribing c o ∷ rs) w = run env ch rs (subscribe_to_channel env w c ch o).0
run env ch (unsubscribing c ∷ rs) w = run env ch rs (unsubscribe_from_channel w c ch).0

-- The abstract view: the options of each connection.
abbrev pub Subscribers : Type 0
Subscribers = ConnRef → Option Options

abbrev options_of : Option ChannelSubscription → Option Options
options_of none = none
options_of (some cs) = some cs.options

abbrev pub view : World → ChanRef → Subscribers
view w ch c = options_of (lookup c (w.chans ch).subscribed_connections)

-- What is promised: the options of a request go on top of those that the connection has, or of the
-- defaults of the type of the channel; a connection that is closing gets none.
abbrev pub over : Env → ℕ → Option SubOptions → Option Options → Option Options
over env t o none = some (merged env (default_sub_options env t) o)
over env t o (some old) = some (merged env old o)

abbrev pub replay : Env → ℕ → (ConnRef → Bool) → List Request → Subscribers → Subscribers
replay env t closing [] v = v
replay env t closing (subscribing c o ∷ rs) v =
    replay env t closing rs
      (λ d. if c == d then (if closing c then v c else over env t o (v c)) else v d)
replay env t closing (unsubscribing c ∷ rs) v =
    replay env t closing rs (λ d. if c == d then none else v d)

new_subscription-view :
    (env : Env) (w : World) (c d : ConnRef) (ch : ChanRef) (o : Option SubOptions)
    → view (new_subscription env w c ch o).0 ch d ≡ (
        if c == d
        then some (merged env (default_sub_options env (w.chans ch).channel_type) o)
        else view w ch d)
unfolding new_subscription update
new_subscription-view env w c d ch o =
    ground (
      arith,
      lookup-insert c d (new_subscription env w c ch o).1 (w.chans ch).subscribed_connections,
    )

merge_subscription-view :
    (env : Env) (w : World) (c d : ConnRef) (ch : ChanRef) (cs : ChannelSubscription)
    (o : Option SubOptions)
    → lookup c (w.chans ch).subscribed_connections ≡ some cs
    → view (merge_subscription env w c ch cs o).0 ch d
      ≡ (if c == d then some (merged env cs.options o) else view w ch d)
unfolding merge_subscription update
merge_subscription-view env w c d ch cs none present = ground (arith, present)
merge_subscription-view env w c d ch cs (some s) present = ground (
  arith,
  lookup-insert c d (record cs { options = env.merge_options cs.options s })
      (w.chans ch).subscribed_connections,
)

subscribe-view :
    (env : Env) (w : World) (c d : ConnRef) (ch : ChanRef) (o : Option SubOptions)
    → view (subscribe_to_channel env w c ch o).0 ch d ≡ (
        if c == d
        then (if is_closing w c
            then view w ch c
            else over env (w.chans ch).channel_type o (view w ch c))
        else view w ch d)
unfolding subscribe_to_channel
subscribe-view env w c d ch o = elim (Bool-cases (is_closing w c)) [
  | inl closed ↦ rw (closed) (ground arith)
  | inr alive ↦ elim (Option-cases (lookup c (w.chans ch).subscribed_connections)) [
    | inl absent ↦ rw (alive, absent) (new_subscription-view env w c d ch o)
    | inr (cs, present) ↦ rw (alive, present) (merge_subscription-view env w c d ch cs o present)
  ]
]

unsubscribe-view :
    (w : World) (c d : ConnRef) (ch : ChanRef)
    → view (unsubscribe_from_channel w c ch).0 ch d ≡ (if c == d then none else view w ch d)
unfolding unsubscribe_from_channel update
unsubscribe-view w c d ch = ground (arith, lookup-remove c d (w.chans ch).subscribed_connections)

-- What a request leaves as it was.
abbrev Same : World → World → ChanRef → Type 0
Same w w' ch =
    ((w'.chans ch).channel_type ≡ (w.chans ch).channel_type)
    × ((d : ConnRef) → is_closing w' d ≡ is_closing w d)

subscription-Same :
    (env : Env) (w : World) (c : ConnRef) (ch : ChanRef) (cs : ChannelSubscription)
    (o : Option SubOptions)
    → Same w (new_subscription env w c ch o).0 ch × Same w (merge_subscription env w c ch cs o).0 ch
unfolding new_subscription merge_subscription update is_closing
subscription-Same env w c ch cs none = ((ground arith, λ d. ground arith), (refl, λ d. refl))
subscription-Same env w c ch cs (some s) =
    ((ground arith, λ d. ground arith), (ground arith, λ d. ground arith))

subscribe-Same :
    (env : Env) (w : World) (c : ConnRef) (ch : ChanRef) (o : Option SubOptions)
    → Same w (subscribe_to_channel env w c ch o).0 ch
unfolding subscribe_to_channel
subscribe-Same env w c ch o = elim (Bool-cases (is_closing w c)) [
  | inl closed ↦ rw closed (refl, λ d. refl)
  | inr alive ↦ elim (Option-cases (lookup c (w.chans ch).subscribed_connections)) [
    | inl absent ↦
        let made = (new_subscription env w c ch o).1 in
        rw (alive, absent) (subscription-Same env w c ch made o).0
    | inr (cs, present) ↦ rw (alive, present) (subscription-Same env w c ch cs o).1
  ]
]

unsubscribe-Same :
    (w : World) (c : ConnRef) (ch : ChanRef) → Same w (unsubscribe_from_channel w c ch).0 ch
unfolding unsubscribe_from_channel update is_closing
unsubscribe-Same w c ch = (ground arith, λ d. ground arith)

replay-cong :
    (env : Env) (t u : ℕ) (f g : ConnRef → Bool) (rs : List Request) (v x : Subscribers)
    → t ≡ u
    → ((d : ConnRef) → f d ≡ g d)
    → ((d : ConnRef) → v d ≡ x d)
    → (d : ConnRef) → replay env t f rs v d ≡ replay env u g rs x d
replay-cong env t u f g [] v x kind state same d = same d
replay-cong env t u f g (subscribing c o ∷ rs) v x kind state same d =
    replay-cong env t u f g rs _ _ kind state (λ e. rw (kind, state c, same c, same e) refl) d
replay-cong env t u f g (unsubscribing c ∷ rs) v x kind state same d =
    replay-cong env t u f g rs _ _ kind state (λ e. ground (arith, same e)) d

-- Whatever connections ask of a channel, in any order, the options that it then has for each connection
-- are those of the replay of the requests on a map from connections to options.
pub run-replay :
    (env : Env) (ch : ChanRef) (rs : List Request) (w : World) (d : ConnRef)
    → view (run env ch rs w) ch d
      ≡ replay env (w.chans ch).channel_type (is_closing w) rs (view w ch) d
run-replay env ch [] w d = refl
run-replay env ch (subscribing c o ∷ rs) w d =
    let w' = (subscribe_to_channel env w c ch o).0 in
    let (kind, state) = subscribe-Same env w c ch o in
    run-replay env ch rs w' d
    ∙ replay-cong env (w'.chans ch).channel_type (w.chans ch).channel_type (is_closing w')
        (is_closing w) rs (view w' ch) _ kind state (λ e. subscribe-view env w c e ch o) d
run-replay env ch (unsubscribing c ∷ rs) w d =
    let w' = (unsubscribe_from_channel w c ch).0 in
    let (kind, state) = unsubscribe-Same w c ch in
    run-replay env ch rs w' d
    ∙ replay-cong env (w'.chans ch).channel_type (w.chans ch).channel_type (is_closing w')
        (is_closing w) rs (view w' ch) _ kind state (λ e. unsubscribe-view w c e ch) d
