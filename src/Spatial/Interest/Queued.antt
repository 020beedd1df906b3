-- ===== src/Spatial/Interest/Queued.antt =====
-- Which channels are asked when the interest of a client changes (pkg/channeld/message_spatial.go).
use channeld.Base.{
  ℕ, ◌≡◌, refl, ◌∙◌, sym, ap, subst, false, not, ◌&&◌, Option, none, some, List, [], ◌∷◌, ◌++◌,
  opt_eq, if◌then◌else◌, arith, lookup, has_key, if-cases,
}
use channeld.Ids.{difference}
use channeld.World.Types.{
  ConnRef, ChanRef, World, Env, MessageContext, Handler, SubOptions, handle_sub_to_channel,
  handle_unsub_from_channel,
}
use channeld.World.Access.{get_channel}
use channeld.Handlers.Subscribe.{handle_sub, handle_unsub}
use channeld.Channel.Broadcast.{Distinct}
use channeld.Spatial.Interest.{Distances}
use channeld.Spatial.Interest.Frame.{handle_sub-Kept, handle_unsub-Kept}
use channeld.Spatial.Interest.Update.{
  unsub_context, unsub_one, unsub_each, sub_context, sub_one, sub_each, update_subscriptions,
  channels_to_sub, options_at,
}
use channeld.Spatial.Interest.Asking.{Alone, Waits, ask_one, ask_each, asked, ask_each-Waits}

lookup-difference {ℓ κ} :
    {V : Type ℓ} {W : Type κ} (this : List (ℕ × V)) (others : List (ℕ × W)) (k : ℕ)
    → lookup k (difference this others) ≡ (if has_key k others then none else lookup k this)
unfolding difference lookup
lookup-difference [] others k = ground arith
lookup-difference ((i, v) ∷ this) others k = ground (arith, lookup-difference this others k)

has_key-difference {ℓ κ} :
    {V : Type ℓ} {W : Type κ} (this : List (ℕ × V)) (others : List (ℕ × W)) (k : ℕ)
    → has_key k this ≡ false
    → has_key k (difference this others) ≡ false
has_key-difference this others k absent = ground (arith, absent, lookup-difference this others k)

difference-Distinct {ℓ κ} :
    {V : Type ℓ} {W : Type κ} (this : List (ℕ × V)) (others : List (ℕ × W))
    → Distinct this
    → Distinct (difference this others)
unfolding difference lookup
difference-Distinct [] others keys = tt
difference-Distinct ((i, v) ∷ this) others keys =
    if-cases Distinct (has_key i others) (λ listed. difference-Distinct this others keys.1)
      (λ absent. (has_key-difference this others i keys.0, difference-Distinct this others keys.1))

lookup-channels_to_sub :
    (env : Env) (m : Distances) (id : ℕ)
    → lookup id (channels_to_sub env m)
      ≡ (elim (lookup id m) [ none ↦ none | some dist ↦ some (options_at env dist) ])
unfolding channels_to_sub lookup
lookup-channels_to_sub env [] id = refl
lookup-channels_to_sub env ((i, dist) ∷ m) id = ground (arith, lookup-channels_to_sub env m id)

channels_to_sub-Distinct :
    (env : Env) (m : Distances) → Distinct m → Distinct (channels_to_sub env m)
unfolding channels_to_sub
channels_to_sub-Distinct env [] keys = tt
channels_to_sub-Distinct env ((i, dist) ∷ m) keys =
    (ground (arith, keys.0, lookup-channels_to_sub env m i), channels_to_sub-Distinct env m keys.1)

module _ (env : Env) (ctx : MessageContext) (client : ConnRef) (conn_id : ℕ) where
  abbrev handles_unsub {ℓ} : {A : Type ℓ} → A → World → ChanRef → World
  handles_unsub v w x = handle_unsub env w (unsub_context ctx client x conn_id) client x

  abbrev handles_sub : SubOptions → World → ChanRef → World
  handles_sub o w x = handle_sub env w (sub_context ctx client x conn_id o) client x

  abbrev unsub_message {ℓ} : {A : Type ℓ} → A → ChanRef → MessageContext
  unsub_message v x = unsub_context ctx client x conn_id

  abbrev sub_message : SubOptions → ChanRef → MessageContext
  sub_message o x = sub_context ctx client x conn_id o

  unsub_one-ask_one {ℓ} :
      {A : Type ℓ} (v : A) (w : World) (o : Option ChanRef)
      → unsub_one env w ctx client conn_id o
        ≡ ask_one ctx.channel handles_unsub unsub_message handle_unsub_from_channel v w o
  unsub_one-ask_one v w none = refl
  unsub_one-ask_one v w (some x) = refl

  unsub_each-ask_each {ℓ} :
      {A : Type ℓ} (l : List (ℕ × A)) (w : World)
      → unsub_each env ctx client conn_id l w
        ≡ ask_each ctx.channel handles_unsub unsub_message handle_unsub_from_channel l w
  unfolding unsub_each
  unsub_each-ask_each [] w = refl
  unsub_each-ask_each ((i, v) ∷ rest) w =
      ap (unsub_each env ctx client conn_id rest) (unsub_one-ask_one v w (get_channel w i))
      ∙ unsub_each-ask_each rest _

  sub_one-ask_one :
      (v : SubOptions) (w : World) (o : Option ChanRef)
      → sub_one env w ctx client conn_id v o
        ≡ ask_one ctx.channel handles_sub sub_message handle_sub_to_channel v w o
  sub_one-ask_one v w none = refl
  sub_one-ask_one v w (some x) = refl

  sub_each-ask_each :
      (l : List (ℕ × SubOptions)) (w : World)
      → sub_each env ctx client conn_id l w
        ≡ ask_each ctx.channel handles_sub sub_message handle_sub_to_channel l w
  unfolding sub_each
  sub_each-ask_each [] w = refl
  sub_each-ask_each ((i, v) ∷ rest) w =
      ap (sub_each env ctx client conn_id rest) (sub_one-ask_one v w (get_channel w i))
      ∙ sub_each-ask_each rest _

  -- What is put into the queue of a channel with this id.
  abbrev pub unsub_asked : World → Distances → ℕ → ChanRef → List (MessageContext × Handler)
  unsub_asked w m id ch =
      if has_key id (w.conns client).spatial_subscriptions && not (has_key id m)
      then (unsub_context ctx client ch conn_id, handle_unsub_from_channel) ∷ []
      else []

  abbrev pub sub_asked : Distances → ℕ → ChanRef → List (MessageContext × Handler)
  sub_asked m id ch = elim (lookup id m) [
    | none ↦ []
    | some dist ↦
        (sub_context ctx client ch conn_id (options_at env dist), handle_sub_to_channel) ∷ []
  ]

  asked-unsub_asked :
      (w : World) (m : Distances) (id : ℕ) (ch : ChanRef)
      → asked ctx.channel handles_unsub unsub_message handle_unsub_from_channel id ch
          (difference (w.conns client).spatial_subscriptions (channels_to_sub env m))
        ≡ unsub_asked w m id ch
  asked-unsub_asked w m id ch = ground (
    arith,
    lookup-difference (w.conns client).spatial_subscriptions (channels_to_sub env m) id,
    lookup-channels_to_sub env m id,
  )

  asked-sub_asked :
      (m : Distances) (id : ℕ) (ch : ChanRef)
      → asked ctx.channel handles_sub sub_message handle_sub_to_channel id ch
          (channels_to_sub env m)
        ≡ sub_asked m id ch
  asked-sub_asked m id ch = ground (arith, lookup-channels_to_sub env m id)

  -- When the interest of a client changes, a channel other than the one that runs the handler is asked
  -- to unsubscribe the client if it was subscribed and the query has not found the channel, to
  -- subscribe it, with the options for the distance, if the query has found the channel, and nothing
  -- otherwise. The channel is registered under one id and not being removed, and the keys of
  -- the two maps differ.
  pub update_subscriptions-in_msg_queue :
      (w : World) (m : Distances) (id : ℕ) (ch : ChanRef)
      → opt_eq ctx.channel (some ch) ≡ false
      → get_channel w id ≡ some ch
      → Alone w id ch
      → (w.chans ch).removing ≡ 0
      → Distinct (w.conns client).spatial_subscriptions
      → Distinct m
      → ((update_subscriptions env w ctx client conn_id m).chans ch).in_msg_queue
        ≡ (w.chans ch).in_msg_queue ++ unsub_asked w m id ch ++ sub_asked m id ch
  unfolding update_subscriptions
  update_subscriptions-in_msg_queue w m id ch elsewhere at alone stays old_keys new_keys =
      let q = (w.chans ch).in_msg_queue in
      let to_sub = channels_to_sub env m in
      let gone = difference (w.conns client).spatial_subscriptions to_sub in
      let w' = unsub_each env ctx client conn_id gone w in
      let left : Waits w' id ch (q ++ unsub_asked w m id ch) =
        subst (λ a. Waits w' id ch (q ++ a)) (asked-unsub_asked w m id ch)
          (subst
            (λ v. Waits v id ch (
              q
              ++ asked ctx.channel handles_unsub unsub_message handle_unsub_from_channel id ch
                  gone))
            (sym (unsub_each-ask_each gone w))
            (ask_each-Waits ctx.channel handles_unsub unsub_message handle_unsub_from_channel
              (λ v u x.
                handle_unsub-Kept env (unsub_context ctx client x conn_id) client x u conn_id refl)
              id ch elsewhere gone w q
              (difference-Distinct (w.conns client).spatial_subscriptions to_sub old_keys)
              (refl, stays, at, alone))) in
      let joined : Waits (sub_each env ctx client conn_id to_sub w') id ch
          (q ++ unsub_asked w m id ch ++ sub_asked m id ch) =
        subst
          (λ a.
            Waits (sub_each env ctx client conn_id to_sub w') id ch
              (q ++ unsub_asked w m id ch ++ a))
          (asked-sub_asked m id ch)
          (subst
            (λ v. Waits v id ch (
              q
              ++ unsub_asked w m id ch
              ++ asked ctx.channel handles_sub sub_message handle_sub_to_channel id ch to_sub))
            (sym (sub_each-ask_each to_sub w'))
            (ask_each-Waits ctx.channel handles_sub sub_message handle_sub_to_channel
              (λ o u x.
                handle_sub-Kept env (sub_context ctx client x conn_id o) client x u conn_id (some o)
                  refl)
              id ch elsewhere to_sub w' (q ++ unsub_asked w m id ch)
              (channels_to_sub-Distinct env m new_keys) left)) in
      joined.0
