-- ===== src/Connection/Closed.antt =====
-- Connections that have been closed (pkg/channeld/connection.go).
use channeld.Base.{ℕ, ◌≡◌, Bool, true, false, none, some, arith, lookup, lookup-remove, update}
use channeld.World.Types.{ConnRef, World, Env, MessageContext}
use channeld.World.Access.{is_closing, get_connection, send}
use channeld.Connection.{close, on_authenticated}

-- `GetConnection` never returns a connection that is closing.
get_connection-open :
    (w : World) (id : ℕ) (c : ConnRef) → get_connection w id ≡ some c → is_closing w c ≡ false
unfolding get_connection
get_connection-open w id c found = ground arith

-- After `Close` the connection is closing, whatever the reason given; a second `Close`, an
-- authentication that completes late and a message sent to it change nothing.
pub close-final :
    (env : Env) (w : World) (c : ConnRef) (unexpected again : Bool) (pit : ℕ) (ctx : MessageContext)
    → let w' = close env w c unexpected in
      (is_closing w' c ≡ true)
      × (close env w' c again ≡ w')
      × (on_authenticated w' c pit ≡ w')
      × (send env w' c ctx ≡ w')
unfolding close on_authenticated send update
close-final env w c unexpected again pit ctx = ground arith

-- Closing an open connection takes its id out of both registries.
close-unregistered :
    (env : Env) (w : World) (c : ConnRef) (unexpected : Bool)
    → is_closing w c ≡ false
    → let w' = close env w c unexpected in
      (lookup (w.conns c).id w'.all_connections ≡ none)
      × (lookup (w.conns c).id w'.unauthenticated_connections ≡ none)
unfolding close update
close-unregistered env w c unexpected alive = ground (
  arith,
  lookup-remove (w.conns c).id (w.conns c).id w.all_connections,
  lookup-remove (w.conns c).id (w.conns c).id w.unauthenticated_connections,
)

pub close-is_closing :
    (env : Env) (w : World) (c : ConnRef) (unexpected : Bool)
    → is_closing (close env w c unexpected) c ≡ true
unfolding close update
close-is_closing env w c unexpected = ground arith
