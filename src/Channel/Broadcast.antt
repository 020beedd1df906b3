-- ===== src/Channel/Broadcast.antt =====
-- Who receives a broadcast (`Channel.Broadcast` of pkg/channeld/channel.go).
use channeld.Base.{
  ℕ, ◌≡◌, refl, Bool, true, false, not, ◌&&◌, ◌||◌, ◌==◌, opt_eq, some, List, [], ◌∷◌, ◌++◌,
  if◌then◌else◌, arith, lookup, has_key,
}
use channeld.World.Types.{ConnRef, ChanRef, World, Env, MessageContext, ChannelSubscription}
use channeld.World.Access.{
  send, check, all_but_sender, all_but_owner, all_but_client, all_but_server, is_sender, get_owner,
  client, server,
}
use channeld.World.Send.{
  queued, receives, send-chans, send-send_queue, send-connection_type, send-is_closing,
}
use channeld.Channel.{broadcast, broadcast_to, skipped}

-- The keys of a Go map are distinct.
abbrev pub Distinct {ℓ} : {V : Type ℓ} → List (ℕ × V) → Type 0
Distinct [] = Unit {0}
Distinct ((k, v) ∷ m) = (has_key k m ≡ false) × Distinct m

-- What each exclusion says of a connection, beside its flag in the broadcast type.
abbrev pub exclusions : World → ChanRef → MessageContext → ConnRef → List (ℕ × Bool)
exclusions w ch ctx d =
    (all_but_sender, is_sender ctx.connection d)
    ∷ (all_but_owner, opt_eq (get_owner w ch) (some d))
    ∷ (all_but_client, (w.conns d).connection_type == client)
    ∷ (all_but_server, (w.conns d).connection_type == server)
    ∷ []

abbrev pub any_set : ℕ → List (ℕ × Bool) → Bool
any_set broadcast [] = false
any_set broadcast ((flag, named) ∷ rest) = (check flag broadcast && named) || any_set broadcast rest

skipped-exclusions :
    (w : World) (ch : ChanRef) (ctx : MessageContext) (d : ConnRef)
    → skipped w ch ctx d ≡ any_set ctx.broadcast (exclusions w ch ctx d)
unfolding skipped
skipped-exclusions w ch ctx d = ground arith

skipped-send :
    (env : Env) (w : World) (c : ConnRef) (ctx : MessageContext) (ch : ChanRef) (d : ConnRef)
    → skipped (send env w c ctx) ch ctx d ≡ skipped w ch ctx d
unfolding skipped
skipped-send env w c ctx ch d = rw (send-chans env w c ctx, send-connection_type env w c ctx d)

module _ (env : Env) (ch : ChanRef) (ctx : MessageContext) (d : ConnRef) where
  broadcast_to-other :
      (w : World) (subs : List (ConnRef × ChannelSubscription))
      → has_key d subs ≡ false
      → ((broadcast_to env w ch ctx subs).conns d).send_queue ≡ (w.conns d).send_queue
  unfolding broadcast_to lookup
  broadcast_to-other w [] absent = refl
  broadcast_to-other w ((c, cs) ∷ rest) absent = ground (
    arith,
    broadcast_to-other (if skipped w ch ctx c then w else send env w c ctx) rest,
    send-send_queue env w c ctx d,
  )

  broadcast_to-member :
      (w : World) (subs : List (ConnRef × ChannelSubscription))
      → Distinct subs
      → has_key d subs ≡ true
      → ((broadcast_to env w ch ctx subs).conns d).send_queue ≡ (
          if skipped w ch ctx d
          then (w.conns d).send_queue
          else queued env w d ctx (w.conns d).send_queue)
  unfolding broadcast_to lookup
  broadcast_to-member w [] keys present = ground arith
  broadcast_to-member w ((c, cs) ∷ rest) keys present = ground (
    arith,
    broadcast_to-member (if skipped w ch ctx c then w else send env w c ctx) rest keys.1,
    broadcast_to-other (if skipped w ch ctx c then w else send env w c ctx) rest,
    send-send_queue env w c ctx d,
    skipped-send env w c ctx ch d,
    send-is_closing env w c ctx d,
  )

  -- A broadcast adds the message once, at the end of the queue, for every subscriber of the channel
  -- that none of the four exclusions of the broadcast type names and that is not closing, provided
  -- that the message can be packed within the size limit. The queue of every other connection
  -- stays as it was.
  pub broadcast-send_queue :
      (w : World)
      → Distinct (w.chans ch).subscribed_connections
      → ((broadcast env w ch ctx).conns d).send_queue ≡ (
          if has_key d (w.chans ch).subscribed_connections
            && not (any_set ctx.broadcast (exclusions w ch ctx d))
            && receives env w d ctx
          then (w.conns d).send_queue ++ ctx ∷ []
          else (w.conns d).send_queue)
  unfolding broadcast
  broadcast-send_queue w keys = ground (
    arith,
    broadcast_to-other w (w.chans ch).subscribed_connections,
    broadcast_to-member w (w.chans ch).subscribed_connections keys,
    skipped-exclusions w ch ctx d,
  )
