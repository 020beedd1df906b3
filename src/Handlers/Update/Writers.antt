-- ===== src/Handlers/Update/Writers.antt =====
-- Who can change the data of a channel (`handleChannelDataUpdate` of pkg/channeld/message.go).
use channeld.Base.{ℕ, ◌≡◌, ◌≢◌, ◌⊎◌, true, some, arith, lookup, update}
use channeld.World.Types.{
  ConnRef, ChanRef, World, Env, MessageContext, channel_data_update, ChannelData,
}
use channeld.World.Access.{get_owner}
use channeld.Data.{on_update}
use channeld.Handlers.Update.{handle_update, can_write}

-- An update by the owner or by a subscriber with write access reaches the data of its channel as
-- `OnUpdate` merges it, under the sender's own id. No other channel and no connection changes.
handle_update-applied :
    (env : Env) (w : World) (ctx : MessageContext) (c : ConnRef) (ch : ChanRef) (content id : ℕ)
    (d : ChannelData) (update_msg : ℕ)
    → (get_owner w ch ≡ some c) ⊎ (can_write (lookup c (w.chans ch).subscribed_connections) ≡ true)
    → (w.chans ch).channel_data ≡ some d
    → ctx.msg ≡ channel_data_update content id
    → env.unmarshal_new content ≡ some update_msg
    → let w' = handle_update env w ctx c ch in
      ((w'.chans ch).channel_data
        ≡ some (on_update env d update_msg ctx.arrival_time (w.conns c).id))
      × ((other : ChanRef) → other ≢ ch → w'.chans other ≡ w.chans other)
      × (w'.conns ≡ w.conns)
unfolding handle_update update
handle_update-applied env w ctx c ch content id d update_msg right held names decoded =
    (ground arith, (λ other ne. ground (arith, ne)), ground arith)
