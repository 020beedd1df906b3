-- ===== src/Examples/Handling.antt =====
-- Examples of the handlers of messages.
use channeld.Base.{◌↔◌, ◌⊎◌, ◌≢◌, none, ◌≡◌, refl, true, false, none, some, arith}
use channeld.World.Types.{MessageContext, sender, sub_to_channel, remove_channel}
use channeld.World.Access.{is_closing, get_connection, get_channel, has_connection}
use channeld.World.Acl.{check_acl, is_granted, sub, unsub, remove}
use channeld.Handlers.Subscribe.{handle_sub, conn_to_sub}
use channeld.Handlers.Subscribe.Own.{handle_sub-own, subs}
use channeld.Handlers.Lifecycle.{handle_remove}
use channeld.Handlers.Lifecycle.Removing.{handle_remove-lookup}
use channeld.Examples.{env, world, from, some_options}

abbrev sub_2 : MessageContext
sub_2 = from 1 (sub_to_channel 2 (some some_options))

handle_sub-own_example :
    subs (handle_sub env world (from 2 (sub_to_channel 4 none)) 2 1) 1 4 ≡ subs world 1 4
handle_sub-own_example =
    handle_sub-own env world (from 2 (sub_to_channel 4 none)) 2 4 1 refl (λ e. ground (arith, e))

target_2 : conn_to_sub world 1 2 ≡ some 2
unfolding conn_to_sub get_connection
target_2 = refl

found_4 : get_connection world 4 ≡ some 4
unfolding get_connection
found_4 = refl

not_sub : is_granted (check_acl env world 1 (sender 1) sub) ≡ false
unfolding check_acl
not_sub = refl

not_unsub : is_granted (check_acl env world 1 (sender 1) unsub) ≡ false
unfolding check_acl
not_unsub = refl

found_1 : get_channel world 1 ≡ some 1
unfolding get_channel
found_1 = refl

may_remove : is_granted (check_acl env world 1 (sender 2) remove) ≡ true
unfolding check_acl
may_remove = refl

closing_3 : is_closing world 3 ≡ true
unfolding is_closing
closing_3 = refl

handle_remove-lookup_example :
    let ctx = from 4 (remove_channel 1) in
    let w' = handle_remove env world ctx in
    (get_channel w' 1 ≡ none
      ↔ (is_granted (check_acl env world 1 ctx.connection remove) ≡ true)
        ⊎ (has_connection world ctx ≡ false))
    × (get_channel w' 1 ≢ none → w' ≡ world)
handle_remove-lookup_example =
    handle_remove-lookup env world (from 4 (remove_channel 1)) 1 1 refl found_1 refl
