-- ===== src/Connection.antt =====
-- The life of a connection (pkg/channeld/connection.go and
-- connection_recovery.go).
pub mod Closed
pub mod Recovery
use channeld.Base.{
  ℕ, suc, ◌+◌, ◌*◌, Bool, true, false, ◌&&◌, ◌||◌, Option, none, some, List, [], ◌∷◌, ltb, leb,
  ◌==◌, if◌then◌else◌, insert, remove, lookup, update, is_some, has_key,
}
use channeld.Fsm.{FiniteStateMachine, is_allowed, on_received, move_to_next_state}
use channeld.World.Types.{
  ConnRef, ChanRef, HandleRef, World, Env, Connection, RecoverHandle, MessagePack, MessageContext,
  Sender, sender, Handler, Message, server_forward, fsm_disallowed, handle_auth,
  handle_create_channel, handle_remove_channel, handle_list_channel, handle_sub_to_channel,
  handle_unsub_from_channel, handle_channel_data_update, handle_disconnect,
  handle_client_to_server_user_message, handle_server_to_client_user_message,
}
use channeld.World.Access.{
  is_closing, set_conn, get_channel, get_time, broadcast_event, authenticated, closing, server,
  client,
}
use channeld.Channel.{put_message_context}

-- `connectionRecoverHandle.IsTimeOut`.
unfoldable pub is_time_out : Env → World → HandleRef → Bool
is_time_out env w h =
    ltb 0 env.server_conn_recover_timeout_ms
    && ltb ((w.handles h).disconn_time + env.server_conn_recover_timeout_ms * 1_000_000) w.now

-- `Connection.makeRecoverable`.
unfoldable pub make_recoverable : World → ConnRef → World
unfolding update set_conn insert
make_recoverable w c =
    let handle : RecoverHandle = record {
      prev_conn_id = (w.conns c).id;
      disconn_time = w.now;
      new_conn = none;
      start_recovery_time = 0;
    } in
    set_conn
      (record w {
        handles = update w.handles w.next_handle handle;
        next_handle = suc w.next_handle;
        recover_handles = insert (w.conns c).pit w.next_handle w.recover_handles;
      })
      c (record (w.conns c) { recover_handle = some w.next_handle })

-- The part of `Close` after the handlers of the application.
unfoldable pub shut_down : World → ConnRef → World
unfolding set_conn remove
shut_down w c = record (set_conn w c (record (w.conns c) { state = closing })) {
  all_connections = remove (w.conns c).id w.all_connections;
  unauthenticated_connections = remove (w.conns c).id w.unauthenticated_connections;
}

-- `Connection.Close`; the flag says whether the close is unexpected (a non-nil error). The handlers
-- that the application gave, the recording of the session and the `recover` of a panic in these are
-- not part of `World`.
unfoldable pub close : Env → World → ConnRef → Bool → World
unfolding make_recoverable shut_down is_closing
close env w c unexpected =
    if is_closing w c
    then w
    else if unexpected && (w.conns c).connection_type == server && env.server_conn_recoverable
    then shut_down (make_recoverable w c) c
    else shut_down w c

-- `Connection.RecoverFromHandle`. `LoadAndDelete` drops the entry of the old id also where the
-- recovery is then given up.
unfoldable pub recover_from_handle : World → ConnRef → HandleRef → World
unfolding set_conn insert remove update lookup
recover_from_handle w c h =
    let prev = (w.handles h).prev_conn_id in
    let dropped = record w { all_connections = remove prev w.all_connections } in
    if has_key prev w.all_connections
    then dropped
    else record (set_conn dropped c (record (w.conns c) { id = prev; recover_handle = some h })) {
      all_connections = insert prev c dropped.all_connections;
      handles =
          update w.handles h
            (record (w.handles h) { new_conn = some c; start_recovery_time = w.now });
    }

-- `Connection.OnAuthenticated`.
unfoldable pub on_authenticated : World → ConnRef → ℕ → World
unfolding is_closing set_conn remove lookup recover_from_handle
on_authenticated w c pit =
    if is_closing w c
    then w
    else let w' =
        record (set_conn w c (record (w.conns c) {
          state = authenticated;
          pit = pit;
          fsm = (move_to_next_state (w.conns c).fsm).0;
        })) { unauthenticated_connections = remove (w.conns c).id w.unauthenticated_connections } in
      elim (lookup pit w'.recover_handles) [ none ↦ w' | some h ↦ recover_from_handle w' c h ]
