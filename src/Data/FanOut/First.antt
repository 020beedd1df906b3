-- ===== src/Data/FanOut/First.antt =====
-- The first fan-out of a subscription (`tickData` and `fanOutDataUpdate` of pkg/channeld/data.go).
use channeld.Base.{ℕ, ◌≡◌, true, false, some, List, ◌==◌, arith, lookup, update}
use channeld.Base.Int.{ℤ, leb_ℤ}
use channeld.World.Types.{ChanRef, World, Env, ChannelData, ChannelSubscription, FanOutConnection}
use channeld.World.Access.{is_closing}
use channeld.Subscription.{add_ms}
use channeld.Data.FanOut.{visit, visit_due, fan_out, first_fan_out, no_access}

-- When the loop comes to an open subscriber with access that is due and has had no fan-out yet, the
-- data of the channel is afterwards what the field masks of this subscriber have left of it.
visit-filters :
    (env : Env) (ch : ChanRef) (t : ℤ) (w : World) (passed rest : List FanOutConnection)
    (foc : FanOutConnection) (cs : ChannelSubscription) (d : ChannelData) (msg : ℕ)
    → is_closing w foc.conn ≡ false
    → lookup foc.conn (w.chans ch).subscribed_connections ≡ some cs
    → (cs.options.data_access == no_access) ≡ false
    → leb_ℤ (add_ms foc.last_fan_out_time cs.options.fan_out_interval_ms) t ≡ true
    → foc.had_first_fan_out ≡ false
    → (w.chans ch).channel_data ≡ some d
    → d.msg ≡ some msg
    → ((visit env ch t w passed foc rest).0.chans ch).channel_data
      ≡ some (record d { msg = some (env.filter_fields cs.options.data_field_masks msg) })
unfolding visit visit_due fan_out first_fan_out update
visit-filters env ch t w passed rest foc cs d msg live found access due first has_d has_msg =
    ground (arith, live, found, access, due, first, has_d, has_msg)
