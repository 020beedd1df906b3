-- ===== src/Channel/Waiting.antt =====
-- Subscriptions that wait for their server (`tickRecoverableSubscriptions` of
-- pkg/channeld/connection_recovery.go).
use channeld.Base.{ℕ, false, Option, none, List, [], ◌∷◌, ◌≡◌, refl}
use channeld.World.Types.{ChanRef, World, Env, RecoverableSubscription}
use channeld.Channel.Recovering.{recover_each, tick_recoverable_subscriptions}
use channeld.Connection.{is_time_out}

-- Every server that is waited for has still time and has not come back.
unfoldable AllWait : Env → World → List (ℕ × RecoverableSubscription) → Type 0
AllWait env w [] = Unit
AllWait env w ((key, rs) ∷ rest) =
    (is_time_out env w rs.conn_handle ≡ false)
    × ((w.handles rs.conn_handle).new_conn ≡ none)
    × AllWait env w rest

recover_each-AllWait :
    (env : Env) (extension : World → ChanRef → Option ℕ) (w : World) (ch : ChanRef)
    (subs : List (ℕ × RecoverableSubscription))
    → AllWait env w subs
    → recover_each env extension w ch subs ≡ (w, [])
unfolding recover_each AllWait
recover_each-AllWait env extension w ch [] all = refl
recover_each-AllWait env extension w ch ((key, rs) ∷ rest) (early, gone, all) =
    rw (recover_each, early, gone, recover_each-AllWait env extension w ch rest all)

-- A tick while every server is waited for changes nothing.
tick_recoverable_subscriptions-AllWait :
    (env : Env) (extension : World → ChanRef → Option ℕ) (w : World) (ch : ChanRef)
    → AllWait env w (w.chans ch).recoverable_subs
    → tick_recoverable_subscriptions env extension w ch ≡ (w, [])
unfolding tick_recoverable_subscriptions
tick_recoverable_subscriptions-AllWait env extension w ch all =
    recover_each-AllWait env extension w ch (w.chans ch).recoverable_subs all
