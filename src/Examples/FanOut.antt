-- ===== src/Examples/FanOut.antt =====
-- Examples of the fan-out of updates.
use channeld.Base.{◌<◌, ◌≡◌, ◌≢◌, refl, true, false, none, some, [], lookup, arith}
use channeld.Base.Int.{pos, ◌+ℤ◌, leb_ℤ}
use channeld.World.Access.{is_closing}
use channeld.Subscription.{add_ms}
use channeld.World.Types.{FanOutConnection}
use channeld.Data.FanOut.{tick_data, visit, at_least_zero}
use channeld.Data.FanOut.Window.{visit-owed, sent_merge, owed, merge_all}
use channeld.Data.FanOut.Ending.{tick_data-ends, Paced, rounds}
use channeld.Examples.{env, world, subscription, game_data}

paced : Paced world 1
unfolding lookup
paced c cs e = ground (arith, e)

-- Two elements, 1000 nanoseconds behind.
few : rounds (pos 1000) (world.chans 1).fan_out_queue < 3000
few = omega arith

tick_data-ends_example : tick_data env 3000 world 1 (pos 1000) ≢ none
tick_data-ends_example = tick_data-ends env world 1 (pos 1000) 3000 paced few

open_1 : is_closing world 1 ≡ false
unfolding is_closing
open_1 = refl

found_1 : lookup 1 (world.chans 1).subscribed_connections ≡ some subscription
unfolding lookup
found_1 = refl

due_1 : leb_ℤ (add_ms (pos 0) 20) (pos 90000000) ≡ true
unfolding add_ms ◌+ℤ◌
due_1 = refl

-- A subscriber that had its first fan-out.
abbrev seen : FanOutConnection
seen = record {
  conn = 1;
  had_first_fan_out = true;
  last_fan_out_time = pos 0;
  last_message_index = 0;
}

visit-owed_example :
    (visit env 1 (pos 90000000) world [] seen []).0
    ≡ sent_merge env world 1 1 subscription.options.data_field_masks (
        merge_all env game_data.merge_options none (
          owed
            (world.conns 1).id
            subscription.options
            (at_least_zero (pos 0))
            (add_ms (pos 0) 20)
            game_data.update_msg_buffer))
visit-owed_example =
    visit-owed env 1 (pos 90000000) (pos 0) world [] [] seen subscription game_data 5 (refl, tt)
      open_1 found_1 refl due_1 refl refl refl
