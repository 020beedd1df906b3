-- ===== src/Spatial/Creating.antt =====
-- `CreateChannels` and `subToAdjacentChannels` (pkg/channeld/spatial.go). `g` is the grid of the
-- controller, `c` the connection in `ctx.Connection`.
use channeld.Base.{
  ℕ, suc, ◌*◌, ◌/◌, ◌%◌, Bool, true, false, Option, none, some, List, [], ◌∷◌, ◌++◌, ◌==◌, leb, set,
  if◌then◌else◌,
}
use channeld.Base.Int.{pos}
use channeld.Ids.{u32_mod}
use channeld.World.Types.{
  ConnRef, ChanRef, World, Env, SubOptions, CreateChannelMessage, MessageContext, no_sender,
  Message, channel_owner_lost, spatial_channels_ready, ChannelSubscription,
}
use channeld.World.Access.{send, get_channel, get_owner, spatial_type, no_broadcast}
use channeld.Subscription.{subscribe_to_channel, send_subscribed}
use channeld.Channel.{create_channel_with_id}
use channeld.Handlers.Lifecycle.{init_data}
use channeld.Spatial.{Floats, Grid, get_channel_id_no_offset}
use channeld.Spatial.Servers.{
  server_count, init_server_connections, next_server_index, cell_point, server_grid_cols,
  server_grid_rows, server_cells, cell_ids, border_cells,
}

-- The data of a new channel; `none` is the error of `UnmarshalNew`.
abbrev pub first_data : Env → World → ChanRef → CreateChannelMessage → Option World
first_data env w ch msg = elim msg.content [
  | none ↦ some (init_data env w ch none msg.merge_options)
  | some content ↦ elim (env.unmarshal_new content) [
    | none ↦ none
    | some m ↦ some (init_data env w ch (some m) msg.merge_options)
  ]
]

-- What a function has done to the world, with an error or with the channels that it returns.
pub data Outcome : Type 0 where
  error : World → Outcome
  channels : World → List ChanRef → Outcome

abbrev pub with_channel : ChanRef → Outcome → Outcome
with_channel ch (error w) = error w
with_channel ch (channels w chs) = channels w (ch ∷ chs)

unfoldable pub create_each : Env → World → ConnRef → CreateChannelMessage → List ℕ → Outcome
unfolding create_channel_with_id
create_each env w c msg [] = channels w []
create_each env w c msg (id ∷ ids) =
    let (w₁, ch) = create_channel_with_id env w id spatial_type (some c) in
    elim (first_data env w₁ ch msg) [
      | none ↦ error w₁
      | some w₂ ↦ with_channel ch (create_each env w₂ c msg ids)
    ]

-- The `MessageContext` of a message of the server itself, where the fields that are left out are zero.
abbrev pub context_of : ℕ → Message → MessageContext
context_of msg_type msg = record {
  msg_type = msg_type;
  msg = msg;
  broadcast = no_broadcast;
  stub_id = 0;
  channel_id = 0;
  connection = no_sender;
  channel = none;
  arrival_time = pos 0;
}

-- `sendSubscribed` with an empty context, which it fills in.
abbrev pub tell_subscribed :
    Env → ConnRef → ChanRef → World × Option ChannelSubscription × Bool → World
tell_subscribed env c ch (w, none, should_send) = w
tell_subscribed env c ch (w, some cs, should_send) =
    if should_send
    then send_subscribed env w c (context_of 0 channel_owner_lost) ch c 0 cs.options
    else w

-- One connection subscribes to the channels of cells; `false` is an error.
unfoldable pub sub_to_cells :
    Floats → Env → Grid → World → ConnRef → Option SubOptions → List (ℕ × ℕ) → World × Bool
unfolding get_channel_id_no_offset get_channel subscribe_to_channel
sub_to_cells fl env g w c options [] = (w, true)
sub_to_cells fl env g w c options ((x, y) ∷ cells) =
    elim (get_channel_id_no_offset fl env g (cell_point fl g x y)) [
      | none ↦ (w, false)
      | some id ↦ elim (get_channel w id) [
        | none ↦ (w, false)
        | some ch ↦
            sub_to_cells fl env g
              (tell_subscribed env c ch (subscribe_to_channel env w c ch options)) c options cells
      ]
    ]

-- `subToAdjacentChannels` for the server of index `s`, whose connection is `c`.
unfoldable pub sub_to_adjacent_channels :
    Floats → Env → Grid → World → ℕ → ConnRef → Option SubOptions → World × Bool
unfolding sub_to_cells border_cells
sub_to_adjacent_channels fl env g w s c options =
    if g.server_interest_border_size == 0
    then (w, true)
    else elim (get_channel_id_no_offset fl env g (
        cell_point fl g (s % g.server_cols * server_grid_cols g % u32_mod)
          (s / g.server_cols * server_grid_rows g % u32_mod))) [
            | none ↦ (w, false)
            | some id ↦ elim (get_channel w id) [
              | none ↦ (w, false)
              | some ch ↦ sub_to_cells fl env g w c options (border_cells g s)
            ]
          ]

-- For each server from index `s` on; it stops at the first error. No place is empty here.
unfoldable pub sub_servers :
    Floats → Env → Grid → Option SubOptions → ℕ → List (Option ConnRef) → World → World × Bool
unfolding sub_to_adjacent_channels
sub_servers fl env g options s [] w = (w, true)
sub_servers fl env g options s (none ∷ rest) w = (w, false)
sub_servers fl env g options s (some c ∷ rest) w =
    let (w', ok) = sub_to_adjacent_channels fl env g w s c options in
    let after = sub_servers fl env g options (suc s) rest w' in if ok then after else (w', false)

unfoldable pub send_each : Env → MessageContext → List (Option ConnRef) → World → World
send_each env ctx [] w = w
send_each env ctx (none ∷ rest) w = send_each env ctx rest w
send_each env ctx (some c ∷ rest) w = send_each env ctx rest (send env w c ctx)

abbrev pub spatial_channels_ready_type : ℕ
spatial_channels_ready_type = 18

-- The `ownerConnection` of the GLOBAL channel, closing or not.
abbrev pub master : World → Option ConnRef
master w = elim w.global_channel [ none ↦ none | some ch ↦ get_owner w ch ]

-- The servers and the master server are told that all spatial channels are there.
unfoldable pub tell_ready : Env → Grid → ℕ → World → World
unfolding send_each
tell_ready env g s w =
    let ctx = context_of spatial_channels_ready_type (spatial_channels_ready s (server_count g)) in
    send_each env ctx (w.server_connections ++ master w ∷ []) w

-- The rest of `CreateChannels`, for the server of index `s` that has its channels.
unfoldable pub after_channels :
    Floats → Env → Grid → ConnRef → ℕ → CreateChannelMessage → Outcome → Outcome
unfolding sub_servers tell_ready next_server_index
after_channels fl env g c s msg (error w) = error w
after_channels fl env g c s msg (channels w chs) =
    let w₁ = record w { server_connections = set w.server_connections s (some c) } in
    let (w₂, ok) = sub_servers fl env g msg.sub_options 0 w₁.server_connections w₁ in
    if next_server_index w₁ == server_count g
    then if ok then channels (tell_ready env g (next_server_index w₁) w₂) chs else error w₂
    else channels w₁ chs

-- `CreateChannels`.
unfoldable pub create_channels :
    Floats → Env → Grid → World → ConnRef → CreateChannelMessage → Outcome
unfolding init_server_connections next_server_index cell_ids server_cells create_each after_channels
create_channels fl env g w c msg =
    let w' = init_server_connections g w in
    let s = next_server_index w' in
    if leb (server_count g) s then error w' else elim (cell_ids fl env g (server_cells g s)) [
      | none ↦ error w'
      | some ids ↦ after_channels fl env g c s msg (create_each env w' c msg ids)
    ]
