-- ===== src/Examples/Connections.antt =====
-- Examples of closing connections and of bans.
use channeld.Base.{◌≡◌, refl, true, false, some}
use channeld.World.Types.{channel_data_update}
use channeld.World.Access.{is_closing, get_connection, send}
use channeld.Connection.{close, on_authenticated}
use channeld.Connection.Closed.{close-final}
use channeld.Base.{Option, none, some, lookup, [], ◌∷◌, if◌then◌else◌}
use channeld.World.Types.{World, HandleRef}
use channeld.Channel.Broadcast.{Distinct}
use channeld.Connection.Recovery.{tick_connection_recovery}
use channeld.Connection.Recovery.Ended.{is_ended, tick_connection_recovery-lookup}
use channeld.Ddos.{failed_attempts}
use channeld.Examples.{env, world, from}

found_2 : get_connection world 2 ≡ some 2
unfolding get_connection
found_2 = refl

open_4 : is_closing world 4 ≡ false
unfolding is_closing
open_4 = refl

close-final_example :
    let w' = close env world 2 true in
    (is_closing w' 2 ≡ true)
    × (close env w' 2 false ≡ w')
    × (on_authenticated w' 2 7 ≡ w')
    × (send env w' 2 (from 1 (channel_data_update 9 2)) ≡ w')
close-final_example = close-final env world 2 true false 7 (from 1 (channel_data_update 9 2))

failed_104 : failed_attempts world 104 ≡ 1
unfolding failed_attempts
failed_104 = refl

failed_105 : failed_attempts world 105 ≡ 0
unfolding failed_attempts
failed_105 = refl

-- A server was lost at the start of the process, and has not come back.
abbrev lost_world : World
lost_world = record world { recover_handles = (101, 0) ∷ (102, 1) ∷ [] }

lost-Distinct : Distinct lost_world.recover_handles
unfolding lookup
lost-Distinct = (refl, (refl, tt))

tick_connection_recovery-lookup_example :
    lookup 102 (tick_connection_recovery env lost_world).recover_handles
    ≡ elim (lookup 102 lost_world.recover_handles) as (λ o. Option HandleRef) [
      | none ↦ none
      | some h ↦ if is_ended env lost_world h then none else some h
    ]
tick_connection_recovery-lookup_example =
    tick_connection_recovery-lookup env lost_world 102 lost-Distinct
