-- ===== src/Ddos.antt =====
-- The listeners that `InitAntiDDoS` registers (pkg/channeld/ddos.go). The blacklists keep no dates here: nothing reads them.
pub mod Bans
pub mod Timeouts
use channeld.Base.{
  ℕ, suc, ◌+◌, ◌-◌, ◌*◌, ◌/◌, Bool, true, false, not, ◌&&◌, Option, none, some, List, [], ◌∷◌, ltb,
  leb, ◌==◌, if◌then◌else◌, insert, lookup,
}
use channeld.World.Types.{ConnRef, World, Env, Connection}
use channeld.World.Access.{set_conn, server, is_closing, unauthenticated}
use channeld.Connection.{close}

-- `AuthResultMessage_AuthResult`.
abbrev pub successful : ℕ
successful = 0

abbrev pub invalid_pit : ℕ
invalid_pit = 1

abbrev pub invalid_lt : ℕ
invalid_lt = 2

abbrev pub count_of : Option ℕ → ℕ
count_of none = 0
count_of (some n) = n

unfoldable pub failed_attempts : World → ℕ → ℕ
unfolding lookup
failed_attempts w key = count_of (lookup key w.failed_auth_counters)

-- `failedAuthCounters[key]++`.
unfoldable pub count_failure : World → ℕ → World
unfolding insert failed_attempts
count_failure w key = record w {
  failed_auth_counters = insert key (suc (failed_attempts w key)) w.failed_auth_counters;
}

-- A limit of zero is no limit.
abbrev pub over_limit : ℕ → ℕ → Bool
over_limit limit n = ltb 0 limit && leb limit n

pub ban_pit : Env → World → ConnRef → ℕ → World
ban_pit env w c pit = close env (record w { pit_blacklist = pit ∷ w.pit_blacklist }) c false

unfoldable pub ban_ip : Env → World → ConnRef → ℕ → World
ban_ip env w c ip = close env (record w { ip_blacklist = ip ∷ w.ip_blacklist }) c false

pub on_invalid_lt : Env → World → ConnRef → ℕ → World
unfolding count_failure ban_pit
on_invalid_lt env w c pit =
    let w' = count_failure w pit in
    if over_limit env.max_failed_auth_attempts (failed_attempts w' pit)
    then ban_pit env w' c pit
    else w'

pub on_invalid_pit : Env → World → ConnRef → Option ℕ → World
unfolding count_failure ban_ip
on_invalid_pit env w c none = w
on_invalid_pit env w c (some ip) =
    let w' = count_failure w ip in
    if over_limit env.max_failed_auth_attempts (failed_attempts w' ip)
    then ban_ip env w' c ip
    else w'

-- The listener of `Event_AuthComplete`.
unfoldable pub on_auth_event : Env → World → ℕ → ConnRef → ℕ → World
unfolding on_invalid_lt on_invalid_pit
on_auth_event env w auth_result c pit =
    if (w.conns c).connection_type == server
    then w
    else if auth_result == invalid_lt
    then on_invalid_lt env w c pit
    else if auth_result == invalid_pit
    then on_invalid_pit env w c (w.conns c).remote_ip
    else w

-- The listener of `Event_FsmDisallowed`.
unfoldable pub on_fsm_disallowed : Env → World → ConnRef → World
unfolding set_conn ban_pit
on_fsm_disallowed env w c =
    if (w.conns c).connection_type == server
    then w
    else let n = suc (w.conns c).fsm_disallowed_counter in
      let w' = set_conn w c (record (w.conns c) { fsm_disallowed_counter = n }) in
      if over_limit env.max_fsm_disallowed n then ban_pit env w' c (w'.conns c).pit else w'

-- Whether a connection has waited for its authentication for too long.
unfoldable pub is_overdue : Env → World → ConnRef → Bool
unfolding is_closing
is_overdue env w c =
    not (is_closing w c)
    && (w.conns c).state == unauthenticated
    && leb env.connection_auth_timeout_ms ((w.now - (w.conns c).conn_time) / 1_000_000)

-- The step of `checkUnauthConns` for one connection; `none` is a panic for a missing address.
unfoldable pub check_unauth_conn : Env → World → ConnRef → Option World
unfolding is_overdue ban_ip
check_unauth_conn env w c =
    if is_overdue env w c
    then elim (w.conns c).remote_ip [ none ↦ none | some ip ↦ some (ban_ip env w c ip) ]
    else some w

unfoldable pub check_each : Env → World → List (ℕ × ConnRef) → Option World
unfolding check_unauth_conn
check_each env w [] = some w
check_each env w ((id, c) ∷ rest) = elim (check_unauth_conn env w c) [
  | none ↦ none
  | some w' ↦ check_each env w' rest
]

-- One round of `checkUnauthConns`.
unfoldable pub check_unauth_conns : Env → World → Option World
unfolding check_each
check_unauth_conns env w = check_each env w w.unauthenticated_connections
