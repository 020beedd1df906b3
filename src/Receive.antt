-- ===== src/Receive.antt =====
-- The messages that a connection receives (`receiveMessage` of pkg/channeld/connection.go).
pub mod Allowed
pub mod Machine
use channeld.Base.{
  ℕ, suc, ◌+◌, ◌*◌, Bool, true, false, ◌&&◌, ◌||◌, Option, none, some, List, [], ◌∷◌, ltb, leb,
  ◌==◌, if◌then◌else◌, insert, remove, lookup, update, is_some, has_key,
}
use channeld.Fsm.{FiniteStateMachine, is_allowed, on_received, move_to_next_state}
use channeld.World.Types.{
  ConnRef, ChanRef, HandleRef, World, Env, Connection, RecoverHandle, MessagePack, MessageContext,
  Sender, sender, Handler, Message, server_forward, fsm_disallowed, handle_auth,
  handle_create_channel, handle_remove_channel, handle_list_channel, handle_sub_to_channel,
  handle_unsub_from_channel, handle_channel_data_update, handle_disconnect,
  handle_query_spatial_channel, handle_get_spatial_regions, handle_update_spatial_interest,
  handle_create_entity_channel, handle_add_entity_group, handle_remove_entity_group,
  handle_client_to_server_user_message, handle_server_to_client_user_message,
}
use channeld.World.Access.{
  is_closing, set_conn, get_channel, get_time, broadcast_event, authenticated, closing, server,
  client,
}
use channeld.Ddos.{on_fsm_disallowed}
use channeld.Channel.{put_message_context}

abbrev pub user_space_start : ℕ
user_space_start = 100

-- `MessageMap`, as it is before an application registers more.
abbrev pub message_table : List (ℕ × Handler)
message_table =
    (1, handle_auth)
    ∷ (3, handle_create_channel)
    ∷ (4, handle_remove_channel)
    ∷ (5, handle_list_channel)
    ∷ (6, handle_sub_to_channel)
    ∷ (7, handle_unsub_from_channel)
    ∷ (8, handle_channel_data_update)
    ∷ (9, handle_disconnect)
    ∷ (10, handle_create_channel)
    ∷ (11, handle_query_spatial_channel)
    ∷ (99, handle_get_spatial_regions)
    ∷ (14, handle_update_spatial_interest)
    ∷ (15, handle_create_entity_channel)
    ∷ (16, handle_add_entity_group)
    ∷ (17, handle_remove_entity_group)
    ∷ []

unfoldable pub message_map : ℕ → Option Handler
unfolding lookup
message_map t = lookup t message_table

-- A type below the user space that has no handler.
abbrev pub is_undefined : ℕ → Bool
is_undefined t = ltb t user_space_start && elim (message_map t) [ none ↦ true | some _ ↦ false ]

-- The message and the handler of a pack that the state machine allows.
unfoldable pub decode : Env → World → ConnRef → MessagePack → Option (Message × Handler)
decode env w c mp = elim (message_map mp.msg_type) [
  | some handler ↦ elim (env.unmarshal_body mp.msg_type mp.msg_body) [
    | none ↦ none
    | some msg ↦ some (msg, handler)
  ]
  | none ↦
      if (w.conns c).connection_type == client
      then some (server_forward (w.conns c).id mp.msg_body, handle_client_to_server_user_message)
      else elim (env.unmarshal_body mp.msg_type mp.msg_body) [
        | none ↦ none
        | some msg ↦ some (msg, handle_server_to_client_user_message)
      ]
]

-- `PutMessage`, as `receiveMessage` calls it.
unfoldable pub put_message : World → ChanRef → Message → Handler → ConnRef → MessagePack → World
unfolding put_message_context
put_message w ch msg handler c mp =
    put_message_context w ch
      (record {
        msg_type = mp.msg_type;
        msg = msg;
        broadcast = mp.broadcast;
        stub_id = mp.stub_id;
        channel_id = mp.channel_id;
        connection = sender c;
        channel = some ch;
        arrival_time = get_time w ch;
      })
      handler

abbrev pub disallow : Env → World → ConnRef → World
disallow env w c = if env.anti_ddos then on_fsm_disallowed env w c else w

abbrev pub with_fsm : Connection → FiniteStateMachine → Connection
with_fsm conn fsm = record conn { fsm = fsm }

-- `Connection.receiveMessage`. The event goes to the listener of Ddos.antt; `none` is the panic of a machine that has no state.
unfoldable pub receive_message : Env → World → ConnRef → MessagePack → Option World
unfolding set_conn broadcast_event get_channel message_map on_fsm_disallowed decode put_message
receive_message env w c mp = elim (get_channel w mp.channel_id) [
  | none ↦ some w
  | some ch ↦
      if is_undefined mp.msg_type then some w else elim (is_allowed (w.conns c).fsm mp.msg_type) [
        | none ↦ none
        | some false ↦ some (disallow env (broadcast_event w (fsm_disallowed c)) c)
        | some true ↦ elim (decode env w c mp) [
          | none ↦ some w
          | some (msg, handler) ↦ elim (on_received (w.conns c).fsm mp.msg_type) [
            | none ↦ none
            | some fsm ↦
                some (put_message (set_conn w c (with_fsm (w.conns c) fsm)) ch msg handler c mp)
          ]
        ]
      ]
]
