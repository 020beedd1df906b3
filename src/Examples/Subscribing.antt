-- ===== src/Examples/Subscribing.antt =====
-- Examples of requests to a channel.
use channeld.Base.{◌≡◌, none, some, [], ◌∷◌}
use channeld.World.Access.{is_closing}
use channeld.Subscription.Refines.{
  run, replay, view, subscribing, unsubscribing, run-replay, Request,
}
use channeld.Base.{List}
use channeld.Examples.{env, world, private_type, some_options}

-- A new connection subscribes, another one changes its options, and the first one leaves.
abbrev requests : List Request
requests =
    subscribing 4 none
    ∷ subscribing 2 (some some_options)
    ∷ unsubscribing 4
    ∷ subscribing 3 none
    ∷ []

run-replay_example :
    view (run env 1 requests world) 1 2
    ≡ replay env private_type (is_closing world) requests (view world 1) 2
run-replay_example = run-replay env 1 requests world 2
