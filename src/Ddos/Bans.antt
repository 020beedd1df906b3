-- ===== src/Ddos/Bans.antt =====
-- The bans for failed authentications (pkg/channeld/ddos.go and message.go).
use channeld.Base.{
  ℕ, suc, ◌≤◌, ◌<◌, ◌≡◌, ◌≢◌, Bool, true, false, ◌∷◌, arith, lookup-insert, contains, ==_self,
}
use channeld.World.Types.{ConnRef, World, Env}
use channeld.World.Access.{server, is_closing}
use channeld.Connection.{close}
use channeld.Connection.Closed.{close-is_closing}
use channeld.Ddos.{on_auth_event, failed_attempts, count_failure, invalid_lt, ban_pit}

close-lists :
    (env : Env) (w : World) (c : ConnRef) (b : Bool)
    → ((close env w c b).pit_blacklist ≡ w.pit_blacklist)
      × ((close env w c b).ip_blacklist ≡ w.ip_blacklist)
      × ((close env w c b).failed_auth_counters ≡ w.failed_auth_counters)
unfolding close
close-lists env w c b = ground arith

banned :
    (env : Env) (w : World) (c : ConnRef) (pit : ℕ)
    → let w' = ban_pit env w c pit in
      (contains pit w'.pit_blacklist ≡ true)
      × (is_closing w' c ≡ true)
      × (w'.failed_auth_counters ≡ w.failed_auth_counters)
unfolding ban_pit
banned env w c pit =
    let w₁ = record w { pit_blacklist = pit ∷ w.pit_blacklist } in
    ground (arith, close-lists env w₁ c false, close-is_closing env w₁ c false, ==_self pit)

failed_attempts-count_failure :
    (w : World) (key : ℕ) → failed_attempts (count_failure w key) key ≡ suc (failed_attempts w key)
unfolding count_failure
failed_attempts-count_failure w key =
    ground (arith, lookup-insert key key (suc (failed_attempts w key)) w.failed_auth_counters)

-- Each invalid login token of a client adds one to the failures counted for its player token.
-- Where a limit is set and the count reaches it, the player token is on the blacklist afterwards
-- and the connection is closing.
on_auth_event-banned :
    (env : Env) (w : World) (c : ConnRef) (pit : ℕ)
    → (w.conns c).connection_type ≢ server
    → 0 < env.max_failed_auth_attempts
    → env.max_failed_auth_attempts ≤ suc (failed_attempts w pit)
    → let w' = on_auth_event env w invalid_lt c pit in
      (contains pit w'.pit_blacklist ≡ true) × (is_closing w' c ≡ true)
unfolding on_auth_event
on_auth_event-banned env w c pit not_server limited reached =
    ground (arith, failed_attempts-count_failure w pit, banned env (count_failure w pit) c pit)

-- Below the limit the failure is counted, and nothing else changes.
on_auth_event-counted :
    (env : Env) (w : World) (c : ConnRef) (pit : ℕ)
    → (w.conns c).connection_type ≢ server
    → suc (failed_attempts w pit) < env.max_failed_auth_attempts
    → let w' = on_auth_event env w invalid_lt c pit in
      (failed_attempts w' pit ≡ suc (failed_attempts w pit))
      × (w'.pit_blacklist ≡ w.pit_blacklist)
      × (w'.conns ≡ w.conns)
unfolding on_auth_event count_failure
on_auth_event-counted env w c pit not_server below =
    ground (arith, failed_attempts-count_failure w pit)
