-- ===== src/Accept.antt =====
-- New connections: `generateNextConnId`, `AddConnection` and what `StartListening` does with an
-- accepted socket (pkg/channeld/connection.go).
pub mod Fresh
use Prim.Native.Nat.{bit_and, bit_xor}
use channeld.Base.{
  ℕ, zero, suc, ◌+◌, ◌-◌, ◌%◌, ◌^◌, Bool, true, false, Option, none, some, List, [], ltb, leb, ◌==◌,
  if◌then◌else◌, insert, has_key, contains, lookup,
}
use channeld.Ids.{u32_mod}
use channeld.Fsm.{FiniteStateMachine}
use channeld.World.Types.{ConnRef, Connection, World, Env}
use channeld.World.Access.{set_conn, server, client, unauthenticated}

-- `uint32(1)<<GlobalSettings.MaxConnectionIdBits - 1`.
abbrev pub max_conn_id : Env → ℕ
max_conn_id env = (2 ^ env.max_connection_id_bits % u32_mod + u32_mod - 1) % u32_mod

-- `generateNextConnId`: the next id, or `none` for the panic at the limit. `hash` is the hash of the
-- remote address, `time` what the clock shows.
unfoldable pub generate_next_conn_id : Env → ℕ → ℕ → ℕ → Option ℕ
generate_next_conn_id env hash time last =
    let next = (last + 1) % u32_mod in
    if env.development
    then if leb (max_conn_id env) next then none else some next
    else some (bit_and (bit_xor hash (time % u32_mod)) (max_conn_id env))

-- The loop of `AddConnection`, with the tries left before the panic; `clock` is the time at a try.
unfoldable pub find_conn_id : Env → ℕ → (ℕ → ℕ) → World → ℕ → ℕ → Option ℕ
unfolding generate_next_conn_id lookup
find_conn_id env hash clock w zero last = none
find_conn_id env hash clock w (suc tries) last =
    elim (generate_next_conn_id env hash (clock tries) last) [
      | none ↦ none
      | some id ↦ elim (has_key id w.all_connections) [
        | false ↦ some id
        | true ↦ find_conn_id env hash clock w tries id
      ]
    ]

-- After 100 tries the next one that fails panics.
abbrev pub max_tries : ℕ
max_tries = 101

abbrev pub fsm_for : Env → ℕ → Option FiniteStateMachine
fsm_for env t = if t == server then env.server_fsm else if t == client then env.client_fsm else none

abbrev pub new_connection : World → ℕ → ℕ → Option ℕ → FiniteStateMachine → Connection
new_connection w id t remote_ip fsm = record {
  id = id;
  connection_type = t;
  state = unauthenticated;
  pit = 0;
  remote_ip = remote_ip;
  fsm = fsm;
  fsm_disallowed_counter = 0;
  send_queue = [];
  spatial_subscriptions = [];
  recover_handle = none;
  conn_time = w.now;
}

abbrev pub registered : Env → World → ConnRef → ℕ → World
registered env w c id = record w {
  next_conn = suc c;
  next_connection_id = id;
  all_connections = insert id c w.all_connections;
  unauthenticated_connections =
      if ltb 0 env.connection_auth_timeout_ms
      then insert id c w.unauthenticated_connections
      else w.unauthenticated_connections;
}

-- `AddConnection`; `none` is a panic: an invalid type, no id, or no machine for the type. The counter
-- of ids is a part of the process also where the id is given up, but a panic ends the process.
unfoldable pub add_connection : Env → World → ℕ → (ℕ → ℕ) → Option ℕ → ℕ → Option (World × ConnRef)
unfolding find_conn_id set_conn insert
add_connection env w hash clock remote_ip t = elim (fsm_for env t) [
  | none ↦ none
  | some fsm ↦ elim (find_conn_id env hash clock w max_tries w.next_connection_id) [
    | none ↦ none
    | some id ↦ some (
      registered env (set_conn w w.next_conn (new_connection w id t remote_ip fsm)) w.next_conn id,
      w.next_conn,
    )
  ]
]

abbrev pub accepted : World → Option (World × ConnRef) → Option (World × Option ConnRef)
accepted w none = none
accepted w (some (w', c)) = some (w', some c)

-- The loop of `StartListening`, for one socket: the address of a banned client is refused.
unfoldable pub accept : Env → World → ℕ → (ℕ → ℕ) → ℕ → ℕ → Option (World × Option ConnRef)
unfolding add_connection
accept env w hash clock ip t =
    if contains ip w.ip_blacklist
    then some (w, none)
    else accepted w (add_connection env w hash clock (some ip) t)
