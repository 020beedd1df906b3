-- ===== src/Handlers/Lifecycle/Removing.antt =====
-- Who can remove a channel (`handleRemoveChannel` of pkg/channeld/message.go).
use channeld.Base.{
  ℕ, false, ◌≡◌, ◌≢◌, ◌↔◌, ◌⊎◌, inl, inr, Bool-cases, refl, ◌∙◌, true, false, none, some, List, [],
  ◌∷◌, arith, ==_self,
}
use channeld.World.Types.{
  ConnRef, ChanRef, World, Env, MessageContext, remove_channel, ChannelSubscription,
}
use channeld.World.Access.{get_channel, send, has_connection}
use channeld.World.Acl.{check_acl, is_granted, remove}
use channeld.World.Send.{send-chans}
use channeld.Channel.{remove_channel_ref}
use channeld.Channel.Removal.{remove_channel_ref-lookup}
use channeld.Handlers.Lifecycle.{handle_remove, tell_removed}

send-all_channels :
    (env : Env) (w : World) (c : ConnRef) (ctx : MessageContext)
    → (send env w c ctx).all_channels ≡ w.all_channels
unfolding send
send-all_channels env w c ctx = ground arith

tell_removed-all_channels :
    (env : Env) (w : World) (ctx : MessageContext) (subs : List (ConnRef × ChannelSubscription))
    → (tell_removed env w ctx subs).all_channels ≡ w.all_channels
unfolding tell_removed
tell_removed-all_channels env w ctx [] = refl
tell_removed-all_channels env w ctx ((c, cs) ∷ rest) =
    tell_removed-all_channels env (send env w c (record ctx { stub_id = 0 })) ctx rest
    ∙ send-all_channels env w c (record ctx { stub_id = 0 })

tell_removed-chans :
    (env : Env) (w : World) (ctx : MessageContext) (subs : List (ConnRef × ChannelSubscription))
    → (tell_removed env w ctx subs).chans ≡ w.chans
unfolding tell_removed
tell_removed-chans env w ctx [] = refl
tell_removed-chans env w ctx ((c, cs) ∷ rest) =
    tell_removed-chans env (send env w c (record ctx { stub_id = 0 })) ctx rest
    ∙ send-chans env w c (record ctx { stub_id = 0 })

module _ (env : Env) (w : World) (ctx : MessageContext) (id : ℕ) (ch : ChanRef)
    (names : ctx.msg ≡ remove_channel id) (found : get_channel w id ≡ some ch) where
  removed :
      (w.chans ch).id ≡ id
      → get_channel
          (remove_channel_ref (tell_removed env w ctx (w.chans ch).subscribed_connections) ch)
          id
        ≡ none
  removed own =
      let told = tell_removed env w ctx (w.chans ch).subscribed_connections in
      remove_channel_ref-lookup env told ch id
      ∙ ground
          (arith, tell_removed-chans env w ctx (w.chans ch).subscribed_connections, ==_self id, own)

  -- A message that names a channel removes it exactly when its sender has access to the removal or
  -- has closed meanwhile; the registry says so afterwards, whoever the subscribers are that are told.
  -- Otherwise nothing at all changes. This is for a channel that is registered under its own id.
  pub handle_remove-lookup :
      (w.chans ch).id ≡ id
      → let w' = handle_remove env w ctx in
        (get_channel w' id ≡ none
          ↔ (is_granted (check_acl env w ch ctx.connection remove) ≡ true)
            ⊎ (has_connection w ctx ≡ false))
        × (get_channel w' id ≢ none → w' ≡ w)
  unfolding handle_remove
  handle_remove-lookup own = elim (Bool-cases (has_connection w ctx)) [
    | inr closed ↦
        let gone : get_channel (handle_remove env w ctx) id ≡ none =
          ground (arith, removed own, closed) in
        ((λ e. inr closed, λ e. gone), λ there. absurd (there gone))
    | inl connected ↦ elim (Bool-cases (is_granted (check_acl env w ch ctx.connection remove))) [
      | inl access ↦
          let gone : get_channel (handle_remove env w ctx) id ≡ none =
            ground (arith, removed own, access) in
          ((λ e. inl access, λ e. gone), λ there. absurd (there gone))
      | inr no_access ↦
          let same : handle_remove env w ctx ≡ w = ground (arith, connected, no_access) in
          (
            (
              λ e. absurd (ground (arith, e, same, found)),
              λ k. absurd (ground (arith, k, connected, no_access)),
            ),
            λ there. same,
          )
    ]
  ]
