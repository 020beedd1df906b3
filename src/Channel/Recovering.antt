-- ===== src/Channel/Recovering.antt =====
-- The subscriptions of a server that comes back: `tickRecoverableSubscriptions`
-- (pkg/channeld/connection_recovery.go).
use channeld.Base.{
  ℕ, Bool, true, false, Option, none, some, List, [], ◌∷◌, if◌then◌else◌, insert, remove,
}
use channeld.World.Types.{
  ConnRef, ChanRef, World, Env, MessageContext, Options, SubOptions, RecoverableSubscription,
  channel_data_recovery, channel_owner_recovered,
}
use channeld.World.Access.{
  get_owner, has_owner, set_owner, set_chan, send, get_channel_settings, all_but_owner,
}
use channeld.Channel.{broadcast}
use channeld.Channel.Ticks.{no_context, remove_after_owner}
use channeld.Connection.{is_time_out}
use channeld.Handlers.Groups.{data_message}
use channeld.Subscription.{subscribe_to_channel}

abbrev pub recovery_channel_data_type : ℕ
recovery_channel_data_type = 20

abbrev pub owner_recovered_type : ℕ
owner_recovered_type = 23

-- The options of a subscription as those of a request.
abbrev pub request_of : Options → SubOptions
request_of o = record {
  data_access = some o.data_access;
  data_field_masks = o.data_field_masks;
  fan_out_interval_ms = some o.fan_out_interval_ms;
  fan_out_delay_ms = some o.fan_out_delay_ms;
  skip_self_update_fan_out = some o.skip_self_update_fan_out;
  skip_first_fan_out = some o.skip_first_fan_out;
}

-- The entry of a subscription that is being recovered: the first fan-out is left out.
abbrev pub skip_first : RecoverableSubscription → RecoverableSubscription
skip_first rs = record rs {
  old_sub_options = record rs.old_sub_options { skip_first_fan_out = true };
}

-- The owner comes back, where there is no other one, and the connection is subscribed again.
unfoldable pub resubscribe : Env → World → ChanRef → ℕ → RecoverableSubscription → ConnRef → World
unfolding has_owner set_owner set_chan subscribe_to_channel insert
resubscribe env w ch key rs c =
    let w₁ = if rs.is_owner then (if has_owner w ch then w else set_owner w ch (some c)) else w in
    let w₂ = set_chan w₁ ch (record (w₁.chans ch) {
      recoverable_subs = insert key (skip_first rs) (w₁.chans ch).recoverable_subs;
    }) in
    (subscribe_to_channel env w₂ c ch (some (request_of (skip_first rs).old_sub_options))).0

abbrev pub owner_id : World → Option ConnRef → ℕ
owner_id w none = 0
owner_id w (some c) = (w.conns c).id

abbrev pub recovery_message :
    World → ChanRef → RecoverableSubscription → (content : ℕ) → Option ℕ → MessageContext
recovery_message w ch rs content extra = record no_context {
  msg_type = recovery_channel_data_type;
  msg =
      channel_data_recovery
        (record {
          channel_id = (w.chans ch).id;
          channel_type = (w.chans ch).channel_type;
          metadata = (w.chans ch).metadata;
        })
        rs.old_sub_time (skip_first rs).old_sub_options content
        (if has_owner w ch then owner_id w (get_owner w ch) else 0) extra;
  channel_id = (w.chans ch).id;
}

-- The process, how many broadcasts of a recovered owner are to follow after `recovery_timeout`, and
-- whether the loop ends here.
abbrev pub Recovered : Type 0
Recovered = World × Bool × Bool

abbrev pub finish_recovery :
    Env → World → ChanRef → ℕ → RecoverableSubscription → ConnRef → ℕ → Option ℕ → Recovered
finish_recovery env w ch key rs c content extra =
    let w' = send env w c (recovery_message w ch rs content extra) in
    (
      set_chan w' ch
          (record (w'.chans ch) { recoverable_subs = remove key (w'.chans ch).recoverable_subs }),
      (get_channel_settings env (w.chans ch).channel_type).send_owner_lost_and_recovered,
      false,
    )

-- The data of the extension of the channel data, which the application may have.
abbrev pub with_extension :
    Env → World → ChanRef → ℕ → RecoverableSubscription → ConnRef → ℕ → Option ℕ → Recovered
with_extension env w ch key rs c content none = finish_recovery env w ch key rs c content none
with_extension env w ch key rs c content (some m) = elim (env.wrap_any m) [
  | none ↦ (w, false, true)
  | some extra ↦ finish_recovery env w ch key rs c content (some extra)
]

abbrev pub wrapped_data : Env → Option ℕ → Option ℕ
wrapped_data env none = none
wrapped_data env (some m) = env.wrap_any m

-- One subscription whose server is back. `extension` gives the recovery data of the extension of a
-- channel.
unfoldable pub recover_subscription :
    Env
    → (World → ChanRef → Option ℕ)
    → World
    → ChanRef
    → ℕ
    → RecoverableSubscription
    → ConnRef
    → Recovered
unfolding resubscribe send has_owner set_chan remove get_channel_settings
recover_subscription env extension w ch key rs c =
    let w' = resubscribe env w ch key rs c in
    elim (wrapped_data env (data_message w' (some ch))) [
      | none ↦ (w', false, true)
      | some content ↦ with_extension env w' ch key rs c content (extension w' ch)
    ]

-- A subscription that is timed out ends the loop, and all of them are forgotten.
unfoldable pub give_up : Env → World → ChanRef → World
unfolding set_chan get_channel_settings remove_after_owner
give_up env w ch =
    let w' = set_chan w ch (record (w.chans ch) { recoverable_subs = [] }) in
    if (get_channel_settings env (w.chans ch).channel_type).remove_channel_after_owner_removed
    then remove_after_owner w' ch
    else w'

-- The loop over the subscriptions; the list is of the broadcasts that are to follow.
unfoldable pub recover_each :
    Env
    → (World → ChanRef → Option ℕ)
    → World
    → ChanRef
    → List (ℕ × RecoverableSubscription)
    → World × List ChanRef
unfolding recover_subscription give_up is_time_out
recover_each env extension w ch [] = (w, [])
recover_each env extension w ch ((key, rs) ∷ rest) =
    if is_time_out env w rs.conn_handle
    then (give_up env w ch, [])
    else elim (w.handles rs.conn_handle).new_conn [
      | none ↦ recover_each env extension w ch rest
      | some c ↦
          let (w', follows, stops) = recover_subscription env extension w ch key rs c in
          elim stops [
            | true ↦ (w', [])
            | false ↦
                let (w'', more) = recover_each env extension w' ch rest in
                (w'', if follows then ch ∷ more else more)
          ]
    ]

-- `tickRecoverableSubscriptions`.
unfoldable pub tick_recoverable_subscriptions :
    Env → (World → ChanRef → Option ℕ) → World → ChanRef → World × List ChanRef
unfolding recover_each
tick_recoverable_subscriptions env extension w ch =
    recover_each env extension w ch (w.chans ch).recoverable_subs

-- The broadcast that follows.
unfoldable pub broadcast_recovered : Env → World → ChanRef → World
unfolding broadcast
broadcast_recovered env w ch = broadcast env w ch (record no_context {
  msg_type = owner_recovered_type;
  msg = channel_owner_recovered;
  broadcast = all_but_owner;
  channel_id = (w.chans ch).id;
})
