-- ===== src/Handlers/Spatial.antt =====
-- `handleCreateSpatialChannel` and `handleQuerySpatialChannel` (pkg/channeld/message_spatial.go) and
-- `handleGetSpatialRegionsMessage` (pkg/channeld/message_debug.go). `g` is the grid of the controller,
-- `c` the connection in `ctx.Connection`, `ch` the channel that runs the handler.
use channeld.Base.{ℕ, not, ◌&&◌, Option, none, some, List, [], ◌∷◌, ◌==◌, opt_eq, if◌then◌else◌}
use channeld.World.Types.{
  ConnRef, ChanRef, World, Env, MessageContext, CreateChannelMessage, SpatialInfo,
  create_spatial_channels_result, spatial_regions_update, query_spatial_channel,
  query_spatial_channel_result, debug_get_spatial_regions,
}
use channeld.World.Access.{send, is_closing, server}
use channeld.Subscription.{subscribe_to_channel}
use channeld.Handlers.Lifecycle.{answer_subscription}
use channeld.Spatial.{Floats, Grid, get_regions, get_channel_id}
use channeld.Spatial.Creating.{create_channels, error, channels, master}

abbrev pub create_spatial_channel_type : ℕ
create_spatial_channel_type = 10

abbrev pub spatial_regions_update_type : ℕ
spatial_regions_update_type = 13

abbrev pub ids_of : World → List ChanRef → List ℕ
ids_of w [] = []
ids_of w (ch ∷ chs) = (w.chans ch).id ∷ ids_of w chs

-- The owner of the GLOBAL channel where it is another connection, which is not closing.
unfoldable pub other_master : World → ConnRef → Option ConnRef
other_master w c = elim (master w) [
  | none ↦ none
  | some d ↦ if not (d == c) && not (is_closing w d) then some d else none
]

-- The answers to the creator and to the master server, and the context that is left.
unfoldable pub answer_created :
    Env
    → World
    → MessageContext
    → ConnRef
    → CreateChannelMessage
    → List ChanRef
    → World × MessageContext
unfolding other_master
answer_created env w ctx c msg chs =
    let ctx' = record ctx {
      msg_type = create_spatial_channel_type;
      msg = create_spatial_channels_result (ids_of w chs) msg.metadata (w.conns c).id;
    } in
    let w' = send env w c ctx' in
    elim (other_master w' c) [
      | none ↦ (w', ctx')
      | some d ↦ let ctx'' = record ctx' { stub_id = 0 } in (send env w' d ctx'', ctx'')
    ]

-- The creator is subscribed to every new channel.
unfoldable pub subscribe_each :
    Env → MessageContext → ConnRef → CreateChannelMessage → List ChanRef → World → World
unfolding subscribe_to_channel
subscribe_each env ctx c msg [] w = w
subscribe_each env ctx c msg (ch ∷ chs) w =
    subscribe_each env ctx c msg chs
      (answer_subscription env ctx c ch (subscribe_to_channel env w c ch msg.sub_options))

-- `none` is where `GetRegions` panics, which a grid of fewer than 2^32 cells does not reach.
unfoldable pub send_regions : Floats → Grid → Env → World → MessageContext → ConnRef → World
unfolding get_regions
send_regions fl g env w ctx c = elim (get_regions fl env g) [
  | none ↦ w
  | some regions ↦
      send env w c (record ctx {
        msg_type = spatial_regions_update_type;
        msg = spatial_regions_update regions;
      })
]

-- `handleCreateSpatialChannel`.
unfoldable pub handle_create_spatial :
    Floats → Grid → Env → World → MessageContext → ConnRef → CreateChannelMessage → World
unfolding create_channels answer_created subscribe_each send_regions
handle_create_spatial fl g env w ctx c msg =
    if not ((w.conns c).connection_type == server)
    then w
    else if not env.has_spatial_controller
    then w
    else elim (create_channels fl env g w c msg) [
      | error w' ↦ w'
      | channels w' chs ↦
          let (w₁, ctx₁) = answer_created env w' ctx c msg chs in
          send_regions fl g env (subscribe_each env ctx₁ c msg chs w₁) ctx₁ c
    ]

-- The channel of each point, 0 for one outside the grid.
unfoldable pub channels_of : Floats → Env → Grid → List SpatialInfo → List ℕ
unfolding get_channel_id
channels_of fl env g [] = []
channels_of fl env g (info ∷ infos) =
    elim (get_channel_id fl env g info) [ none ↦ 0 | some id ↦ id ] ∷ channels_of fl env g infos

-- `handleQuerySpatialChannel`.
unfoldable pub handle_query_spatial :
    Floats → Grid → Env → World → MessageContext → ConnRef → ChanRef → World
unfolding channels_of
handle_query_spatial fl g env w ctx c ch =
    if not (opt_eq w.global_channel (some ch)) then w else elim ctx.msg [
      | query_spatial_channel infos ↦
          if env.has_spatial_controller
          then send env w c
              (record ctx { msg = query_spatial_channel_result (channels_of fl env g infos) })
          else w
      | _ ↦ w
    ]

-- `handleGetSpatialRegionsMessage`.
unfoldable pub handle_get_regions :
    Floats → Grid → Env → World → MessageContext → ConnRef → ChanRef → World
unfolding send_regions
handle_get_regions fl g env w ctx c ch =
    if not env.development
    then w
    else if not (opt_eq w.global_channel (some ch))
    then w
    else elim ctx.msg [
      | debug_get_spatial_regions ↦
          if env.has_spatial_controller then send_regions fl g env w ctx c else w
      | _ ↦ w
    ]
