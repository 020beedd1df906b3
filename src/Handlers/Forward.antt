-- ===== src/Handlers/Forward.antt =====
-- The forwarding of messages of the user space (pkg/channeld/message.go).
use channeld.Base.{
  ℕ, Bool, true, false, ◌&&◌, ◌||◌, Option, none, some, List, [], ◌∷◌, ◌++◌, ltb, leb, ◌==◌,
  if◌then◌else◌, contains,
}
use channeld.World.Types.{
  ConnRef, ChanRef, World, Env, MessageContext, server_forward, ChannelSubscription,
}
use channeld.World.Access.{
  get_channel, get_connection, get_owner, send, send_to_owner, is_closing, is_live, is_sender,
  check, client, server, spatial_type, no_broadcast, single_connection, all, all_but_sender,
  all_but_owner, all_but_client, all_but_server, adjacent_channels,
}
use channeld.Channel.{broadcast}

abbrev should_recover : World → ConnRef → Bool
should_recover w c = elim (w.conns c).recover_handle [ none ↦ false | some _ ↦ true ]

-- `handleClientToServerUserMessage`: to the live owner, unless it is in recovery; without a live
-- owner a broadcast, where the channel allows its clients to.
unfoldable pub handle_client_to_server : Env → World → MessageContext → ConnRef → ChanRef → World
handle_client_to_server env w ctx c ch = elim ctx.msg [
  | server_forward id payload ↦
      if is_live w (get_owner w ch)
      then elim (get_owner w ch) [
        | none ↦ w
        | some o ↦ if should_recover w o then w else send env w o ctx
      ]
      else if ltb 0 ctx.broadcast
      then if (w.chans ch).enable_client_broadcast then broadcast env w ch ctx else w
      else w
  | _ ↦ w
]

-- The keys of the map that `GetAllConnections` and the loop over it fill: each connection once.
unfoldable pub add_conns : List (ConnRef × ChannelSubscription) → List ConnRef → List ConnRef
add_conns [] conns = conns
add_conns ((c, cs) ∷ rest) conns =
    add_conns rest (if contains c conns then conns else conns ++ c ∷ [])

unfoldable pub adjacent_conns : World → List ℕ → List ConnRef → List ConnRef
unfolding add_conns get_channel
adjacent_conns w [] conns = conns
adjacent_conns w (id ∷ ids) conns = adjacent_conns w ids (elim (get_channel w id) [
  | none ↦ conns
  | some ch ↦ add_conns (w.chans ch).subscribed_connections conns
])

-- Whom a message to the adjacent channels leaves out.
unfoldable pub left_out : World → MessageContext → ℕ → ConnRef → Bool
left_out w ctx client_conn_id c =
    (check all_but_sender ctx.broadcast && is_sender ctx.connection c)
    || (check all_but_client ctx.broadcast && (w.conns c).connection_type == client)
    || (check all_but_server ctx.broadcast && (w.conns c).connection_type == server)
    || (w.conns c).id == client_conn_id

unfoldable pub send_adjacent : Env → World → MessageContext → ℕ → List ConnRef → World
send_adjacent env w ctx id [] = w
send_adjacent env w ctx id (c ∷ rest) =
    send_adjacent env (if left_out w ctx id c then w else send env w c ctx) ctx id rest

-- The centre is included unless the owner's channel is to be left out.
abbrev pub with_centre : MessageContext → ℕ → List ℕ → List ℕ
with_centre ctx id ids = if check all_but_owner ctx.broadcast then ids else ids ++ id ∷ []

-- `GetAdjacentChannels` of the spatial controller, if there is one.
abbrev pub Adjacent : Type 0
Adjacent = Option (ℕ → List ℕ)

unfoldable pub forward_adjacent : Env → Adjacent → World → MessageContext → ChanRef → ℕ → World
unfolding adjacent_conns send_adjacent
forward_adjacent env adjacent w ctx ch id =
    if (w.chans ch).channel_type == spatial_type
    then elim adjacent [
      | none ↦ w
      | some ids_of ↦
          send_adjacent env w ctx id
            (adjacent_conns w (with_centre ctx (w.chans ch).id (ids_of (w.chans ch).id)) [])
    ]
    else w

-- A message to a single connection: the owner stands for the id 0, and where there is none the
-- type assertion of Go panics (`none`).
unfoldable pub forward_single : Env → World → MessageContext → Option ConnRef → World
forward_single env w ctx none = w
forward_single env w ctx (some c) = if is_closing w c then w else send env w c ctx

unfoldable pub forward_to : Env → World → MessageContext → ChanRef → ℕ → Option World
unfolding get_connection forward_single
forward_to env w ctx ch id =
    if id == 0
    then elim (get_owner w ch) [ none ↦ none | some o ↦ some (forward_single env w ctx (some o)) ]
    else some (forward_single env w ctx (get_connection w id))

-- `HandleServerToClientUserMessage`.
unfoldable pub handle_server_to_client :
    Env → Adjacent → World → MessageContext → ChanRef → Option World
unfolding forward_adjacent forward_to
handle_server_to_client env adjacent w ctx ch = elim ctx.msg [
  | server_forward id payload ↦
      if ctx.broadcast == no_broadcast
      then some (send_to_owner env w ch ctx).0
      else if ctx.broadcast == single_connection
      then forward_to env w ctx ch id
      else if leb all ctx.broadcast && ltb ctx.broadcast adjacent_channels
      then some (broadcast env w ch ctx)
      else if check adjacent_channels ctx.broadcast
      then some (forward_adjacent env adjacent w ctx ch id)
      else some w
  | _ ↦ some w
]
