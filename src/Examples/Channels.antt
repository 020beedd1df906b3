-- ===== src/Examples/Channels.antt =====
-- Examples of channels: creation, removal, broadcast, subscription, access and the update buffer.
use channeld.Base.{
  ◌≡◌, refl, ◌↔◌, inl, true, false, not, ◌&&◌, none, some, [], ◌∷◌, ◌++◌, if◌then◌else◌, has_key,
  lookup, arith,
}
use channeld.World.Types.{World, MessageContext, ChannelSettings, sender, channel_data_update}
use channeld.World.Access.{spatial_type, is_closing}
use channeld.World.Acl.{check_acl, is_granted, sub, unsub, remove, AccessType}
use channeld.World.Rights.{check_acl-granted, Allows, Owns, OwnsGlobal}
use channeld.World.Send.{receives}
use channeld.Channel.{create_channel, remove_channel_ref, broadcast}
use channeld.Channel.Ids.{create_channel-Outcome, RangesValid, StartsValid, Outcome}
use channeld.Channel.Broadcast.{broadcast-send_queue, any_set, exclusions}
use channeld.Channel.Removal.{remove_channel_ref-MarksHonest, MarksHonest}
use channeld.Subscription.{subscribe_to_channel, unsubscribe_from_channel}
use channeld.Subscription.Queue.{subscriptions-Matches, Matches}
use channeld.Channel.Ticks.{tick_connections}
use channeld.Channel.Ticks.Cleared.{tick_connections-cleared, subscribed}
use channeld.Examples.{conn_of, env, world, from, subscription}

ranges : RangesValid env
ranges = record { spatial_pos = omega arith; ordered = omega arith; bounded = omega arith }

starts : StartsValid env world
starts = record {
  low = omega arith;
  spatial_from = omega arith;
  spatial_to = omega arith;
  past_global = inl (omega arith);
}

create_channel-Outcome_example :
    Outcome env world spatial_type (some 1) (create_channel env world spatial_type (some 1))
create_channel-Outcome_example =
    create_channel-Outcome env world spatial_type (some 1) ranges starts

abbrev news : MessageContext
news = record (from 2 (channel_data_update 9 2)) { broadcast = 4 }

broadcast-send_queue_example : ((broadcast env world 1 news).conns 1).send_queue ≡ (
    if has_key 1 (world.chans 1).subscribed_connections
      && not (any_set news.broadcast (exclusions world 1 news 1))
      && receives env world 1 news
    then (world.conns 1).send_queue ++ news ∷ []
    else (world.conns 1).send_queue)
unfolding lookup
broadcast-send_queue_example = broadcast-send_queue env 1 news 1 world (refl, (refl, tt))

honest : MarksHonest env world
honest = record { non_spatial = λ e. ground (arith, e); spatial = λ e. ground (arith, e) }

remove_channel_ref-MarksHonest_example :
    StartsValid env (remove_channel_ref world 1) × MarksHonest env (remove_channel_ref world 1)
remove_channel_ref-MarksHonest_example =
    remove_channel_ref-MarksHonest env world 1 ranges starts honest (omega arith)

subscriptions-Matches_example :
    Matches (subscribe_to_channel env world 4 1 none).0 1 2
    × Matches (unsubscribe_from_channel world 4 1).0 1 2
unfolding lookup
subscriptions-Matches_example = subscriptions-Matches env world 4 1 none 2 refl

open_4 : is_closing world 4 ≡ false
unfolding is_closing
open_4 = refl

open_2 : is_closing world 2 ≡ false
unfolding is_closing
open_2 = refl

absent_4 : lookup 4 (world.chans 1).subscribed_connections ≡ none
unfolding lookup
absent_4 = refl

present_2 : lookup 2 (world.chans 1).subscribed_connections ≡ some subscription
unfolding lookup
present_2 = refl

check_acl-granted_example :
    ((s : ChannelSettings)
      → lookup (world.chans 1).channel_type env.channel_settings ≡ some s
      → ((is_granted (check_acl env world 1 (sender 2) sub) ≡ true)
          ↔ Allows s.acl_settings.sub (Owns world 1 2) (OwnsGlobal world 2))
        × ((is_granted (check_acl env world 1 (sender 2) unsub) ≡ true)
            ↔ Allows s.acl_settings.unsub (Owns world 1 2) (OwnsGlobal world 2))
        × ((is_granted (check_acl env world 1 (sender 2) remove) ≡ true)
            ↔ Allows s.acl_settings.remove (Owns world 1 2) (OwnsGlobal world 2)))
    × (lookup (world.chans 1).channel_type env.channel_settings ≡ none
        → (access : AccessType) → is_granted (check_acl env world 1 (sender 2) access) ≡ false)
check_acl-granted_example = check_acl-granted env world 1 2

-- The process after every connection has closed.
abbrev all_closed : World
all_closed = record world { conns = λ c. conn_of c 2 2 }

tick_connections-cleared_example :
    let r = tick_connections env all_closed 1 in
    (is_closing all_closed 2 ≡ false → subscribed r.0 1 2 ≡ subscribed all_closed 1 2)
    × (is_closing all_closed 2 ≡ true → r.1 ≡ false → subscribed r.0 1 2 ≡ none)
tick_connections-cleared_example = tick_connections-cleared env all_closed 1 2
