-- ===== src/Accept/Fresh.antt =====
-- The id of a new connection (`AddConnection` of pkg/channeld/connection.go).
use channeld.Base.{
  ℕ, zero, suc, ◌+◌, ◌%◌, ◌<◌, ◌≡◌, refl, ◌≢◌, ◌⊎◌, Bool, true, false, Option, none, some, leb,
  has_key, lookup, lookup-insert, update, arith,
}
use channeld.Ids.{u32_mod}
use channeld.Fsm.{FiniteStateMachine}
use channeld.World.Types.{ConnRef, World, Env}
use channeld.World.Access.{set_conn, unauthenticated, get_connection, is_closing}
use channeld.Accept.{
  add_connection, find_conn_id, generate_next_conn_id, max_conn_id, max_tries, fsm_for,
  new_connection, registered,
}

-- What a new connection is: open, not authenticated, of the type asked for, reachable by an id that
-- nobody had, while every other id leads where it led.
pub record IsNew (env : Env) (w : World) (t : ℕ) (r : World × ConnRef) : Type 0 where
  pub unused : has_key (r.0.conns r.1).id w.all_connections ≡ false
  pub reachable : get_connection r.0 (r.0.conns r.1).id ≡ some r.1
  pub others :
      (j : ℕ) → j ≢ (r.0.conns r.1).id → lookup j r.0.all_connections ≡ lookup j w.all_connections
  pub kind : (r.0.conns r.1).connection_type ≡ t
  pub outside : (r.0.conns r.1).state ≡ unauthenticated
  pub watched :
      has_key (r.0.conns r.1).id r.0.unauthenticated_connections ≡ true
      ⊎ (env.connection_auth_timeout_ms ≡ 0)
  pub heap : (d : ConnRef) → d ≢ w.next_conn → r.0.conns d ≡ w.conns d

abbrev pub NewOrPanic : Env → World → ℕ → Option (World × ConnRef) → Type 0
NewOrPanic env w t none = Unit {0}
NewOrPanic env w t (some r) = IsNew env w t r

find_conn_id-unused :
    (env : Env) (hash : ℕ) (clock : ℕ → ℕ) (w : World) (tries last id : ℕ)
    → find_conn_id env hash clock w tries last ≡ some id
    → has_key id w.all_connections ≡ false
unfolding find_conn_id
find_conn_id-unused env hash clock w zero last id e = ground (arith, e)
find_conn_id-unused env hash clock w (suc tries) last id e =
    generated (generate_next_conn_id env hash (clock tries) last) e
      (λ next. find_conn_id-unused env hash clock w tries next id)
  where
    tried :
        (next : ℕ) (b : Bool)
        → has_key next w.all_connections ≡ b
        → (elim b as (λ x. Option ℕ) [
          | false ↦ some next
          | true ↦ find_conn_id env hash clock w tries next
        ])
          ≡ some id
        → (find_conn_id env hash clock w tries next ≡ some id
            → has_key id w.all_connections ≡ false)
        → has_key id w.all_connections ≡ false
    tried next false h e ih = ground (arith, h, e)
    tried next true h e ih = ih e

    generated :
        (o : Option ℕ)
        → (elim o as (λ x. Option ℕ) [
          | none ↦ none
          | some next ↦ elim (has_key next w.all_connections) [
            | false ↦ some next
            | true ↦ find_conn_id env hash clock w tries next
          ]
        ])
          ≡ some id
        → ((next : ℕ)
            → find_conn_id env hash clock w tries next ≡ some id
            → has_key id w.all_connections ≡ false)
        → has_key id w.all_connections ≡ false
    generated none e ih = ground (arith, e)
    generated (some next) e ih = tried next (has_key next w.all_connections) refl e (ih next)

registered-IsNew :
    (env : Env) (w : World) (id t : ℕ) (remote_ip : Option ℕ) (fsm : FiniteStateMachine)
    → has_key id w.all_connections ≡ false
    → IsNew env w t (
      registered env (set_conn w w.next_conn (new_connection w id t remote_ip fsm)) w.next_conn id,
      w.next_conn,
    )
unfolding set_conn update get_connection is_closing
registered-IsNew env w id t remote_ip fsm free = record {
  unused = ground arith;
  reachable = ground (arith, lookup-insert id id w.next_conn w.all_connections);
  others = λ j ne. ground (arith, lookup-insert id j w.next_conn w.all_connections, ne);
  kind = ground arith;
  outside = ground arith;
  watched = ground (arith, lookup-insert id id w.next_conn w.unauthenticated_connections);
  heap = λ d ne. ground (arith, ne);
}

-- The connection that `AddConnection` returns is open, not authenticated, of the type asked for and
-- reachable by an id that no connection had, and it is watched where there is a time limit for the
-- authentication. Every other id leads where it led, and every other connection is as it was.
pub add_connection-IsNew :
    (env : Env) (w : World) (hash : ℕ) (clock : ℕ → ℕ) (remote_ip : Option ℕ) (t : ℕ)
    → NewOrPanic env w t (add_connection env w hash clock remote_ip t)
unfolding add_connection
add_connection-IsNew env w hash clock remote_ip t = typed (fsm_for env t)
  where
    found :
        (fsm : FiniteStateMachine) (o : Option ℕ)
        → find_conn_id env hash clock w max_tries w.next_connection_id ≡ o
        → NewOrPanic env w t (elim o as (λ x. Option (World × ConnRef)) [
          | none ↦ none
          | some id ↦ some (
            registered env
                (set_conn w w.next_conn (new_connection w id t remote_ip fsm))
                w.next_conn
                id,
            w.next_conn,
          )
        ])
    found fsm none e = tt
    found fsm (some id) e =
        registered-IsNew env w id t remote_ip fsm
          (find_conn_id-unused env hash clock w max_tries w.next_connection_id id e)

    typed :
        (o : Option FiniteStateMachine)
        → NewOrPanic env w t (elim o as (λ x. Option (World × ConnRef)) [
          | none ↦ none
          | some fsm ↦ elim (find_conn_id env hash clock w max_tries w.next_connection_id) [
            | none ↦ none
            | some id ↦ some (
              registered env
                  (set_conn w w.next_conn (new_connection w id t remote_ip fsm))
                  w.next_conn
                  id,
              w.next_conn,
            )
          ]
        ])
    typed none = tt
    typed (some fsm) = found fsm (find_conn_id env hash clock w max_tries w.next_connection_id) refl

generate-development :
    (env : Env) (hash time last : ℕ)
    → env.development ≡ true
    → suc last < max_conn_id env
    → generate_next_conn_id env hash time last ≡ some (suc last)
unfolding generate_next_conn_id
generate-development env hash time last dev room = rw (dev, small, below) refl
  where
    small : (last + 1) % u32_mod ≡ suc last
    small = omega (arith, room)

    below : leb (max_conn_id env) (suc last) ≡ false
    below = ground (arith, room)

-- One try.
find_conn_id-try :
    (env : Env) (hash : ℕ) (clock : ℕ → ℕ) (w : World) (tries last : ℕ)
    → env.development ≡ true
    → suc last < max_conn_id env
    → (has_key (suc last) w.all_connections ≡ true
        → find_conn_id env hash clock w tries (suc last) ≢ none)
    → find_conn_id env hash clock w (suc tries) last ≢ none
unfolding find_conn_id
find_conn_id-try env hash clock w tries last dev room later =
    split (has_key (suc last) w.all_connections) refl
  where
    split :
        (b : Bool)
        → has_key (suc last) w.all_connections ≡ b
        → find_conn_id env hash clock w (suc tries) last ≢ none
    split false h e =
        ground (arith, generate-development env hash (clock tries) last dev room, h, e)
    split true h e =
        later h (ground (arith, generate-development env hash (clock tries) last dev room, h, e))

-- In the development mode an id is found, as long as one of the next ids that are tried is free and
-- none of them reaches the limit.
find_conn_id-found :
    (env : Env) (hash : ℕ) (clock : ℕ → ℕ) (w : World) (tries last k : ℕ)
    → env.development ≡ true
    → k < tries
    → last + tries < max_conn_id env
    → has_key (suc (last + k)) w.all_connections ≡ false
    → find_conn_id env hash clock w tries last ≢ none
unfolding find_conn_id generate_next_conn_id
find_conn_id-found env hash clock w zero last k dev few room free = absurd (omega arith)
find_conn_id-found env hash clock w (suc tries) last zero dev few room free =
    find_conn_id-try env hash clock w tries last dev (omega arith) (λ h. ground (arith, h, free))
find_conn_id-found env hash clock w (suc tries) last (suc k) dev few room free =
    find_conn_id-try env hash clock w tries last dev (omega arith) (λ h.
      find_conn_id-found env hash clock w tries (suc last) k dev (omega arith) (omega arith)
        (ground (arith, free)))
