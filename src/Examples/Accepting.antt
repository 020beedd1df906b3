-- ===== src/Examples/Accepting.antt =====
-- Examples of new connections.
use channeld.Base.{ℕ, ◌+◌, ◌≡◌, refl, true, false, none, some, [], ◌∷◌, has_key, lookup}
use channeld.World.Types.{World, Env}
use channeld.World.Access.{is_closing, unauthenticated, client}
use channeld.Accept.{add_connection, accept}
use channeld.Accept.Fresh.{NewOrPanic, add_connection-IsNew}
use channeld.Ddos.{is_overdue, check_unauth_conns}
use channeld.Ddos.Timeouts.{check_unauth_conns-refuses}
use channeld.Examples.{env, world, conn_of}

abbrev simple_ids : Env
simple_ids = record env { development = true }

add_connection-IsNew_example :
    NewOrPanic simple_ids world client
      (add_connection simple_ids world 0 (λ tries. 0) (some 300) client)
add_connection-IsNew_example =
    add_connection-IsNew simple_ids world 0 (λ tries. 0) (some 300) client

free_6 : has_key 6 world.all_connections ≡ false
unfolding lookup
free_6 = refl

-- A client that has not authenticated since the start.
abbrev waiting_world : World
waiting_world = record world {
  conns = λ c. conn_of c client unauthenticated;
  unauthenticated_connections = (2, 2) ∷ [];
  now = 5_000_000_000;
}

overdue_2 : is_overdue env waiting_world 2 ≡ true
unfolding is_overdue is_closing
overdue_2 = refl

check_unauth_conns-refuses_example :
    (w' : World) × (check_unauth_conns env waiting_world ≡ some w')
    × (is_closing w' 2 ≡ true)
    × ((hash : ℕ) (clock : ℕ → ℕ) (t : ℕ) → accept env w' hash clock 202 t ≡ some (w', none))
check_unauth_conns-refuses_example =
    check_unauth_conns-refuses env waiting_world 2 202 (λ d. (d + 200, refl)) refl overdue_2 refl
