-- ===== src/Handlers/Lifecycle.antt =====
-- `handleCreateChannel`, `handleRemoveChannel`, `handleListChannel` and `handleDisconnect`
-- (pkg/channeld/message.go).
pub mod Removing
use channeld.Base.{
  ℕ, Bool, true, false, not, ◌&&◌, ◌||◌, Option, none, some, List, [], ◌∷◌, ◌++◌, ◌==◌, opt_eq,
  if◌then◌else◌, is_some,
}
use channeld.Base.Strings.{str_contains}
use channeld.World.Types.{
  ConnRef, ChanRef, World, Env, Channel, ChannelData, MessageContext, Message,
  create_channel as create_msg, create_channel_result, remove_channel, list_channel,
  list_channel_result, disconnect, CreateChannelMessage, ChannelInfo, ChannelSubscription, sender,
  global_channel_possessed,
}
use channeld.World.Access.{
  get_channel, get_connection, get_owner, has_owner, set_owner, set_chan, send, send_to_owner,
  broadcast_event, has_connection, is_closing, unknown_type, global_type, spatial_type,
}
use channeld.World.Acl.{check_acl, is_granted, remove as remove_access, global_owner}
use channeld.Subscription.{subscribe_to_channel, send_subscribed}
use channeld.Channel.{create_channel, CreateResult, created, failed, stuck, remove_channel_ref}
use channeld.Connection.{close}

abbrev first_message : Env → ℕ → Option ℕ → Option ℕ
first_message env t (some m) = some (env.init_message m)
first_message env t none = elim (env.new_data_message t) [
  | none ↦ none
  | some m ↦ some (env.init_message m)
]

-- `Channel.InitData`: without a message, one of the type that is registered for the channel type.
unfoldable pub init_data : Env → World → ChanRef → Option ℕ → Option ℕ → World
unfolding set_chan
init_data env w ch msg merge_options =
    let first = first_message env (w.chans ch).channel_type msg in
    set_chan w ch (record (w.chans ch) {
      channel_data = some (record {
        merge_options = merge_options;
        msg = first;
        update_msg_buffer = [];
        max_fan_out_interval_ms = 0;
        msg_index = 0;
      });
    })

abbrev pub set_metadata : World → ChanRef → List ℕ → World
set_metadata w ch metadata = set_chan w ch (record (w.chans ch) { metadata = metadata })

pub answer_subscription :
    Env → MessageContext → ConnRef → ChanRef → World × Option ChannelSubscription × Bool → World
answer_subscription env ctx c ch (w, none, should_send) = w
answer_subscription env ctx c ch (w, some cs, should_send) =
    send_subscribed env w c ctx ch c 0 cs.options

-- The answers to the creator and to the owner of the GLOBAL channel `g`.
pub announce_channel :
    Env → World → MessageContext → ConnRef → ChanRef → ChanRef → World × MessageContext
announce_channel env w ctx c g ch =
    let ctx' = record ctx {
      msg =
          create_channel_result (w.chans ch).channel_type (w.chans ch).metadata (w.conns c).id
            (w.chans ch).id;
    } in
    let w' = send env w c ctx' in
    if not (opt_eq (get_owner w' g) (some c)) && has_owner w' g
    then ((send_to_owner env w' g (record ctx' { stub_id = 0 })).0, record ctx' { stub_id = 0 })
    else (w', ctx')

-- The creator is subscribed last.
pub subscribe_creator :
    Env → ConnRef → ChanRef → CreateChannelMessage → World × MessageContext → World
unfolding answer_subscription
subscribe_creator env c ch msg (w, ctx) =
    answer_subscription env ctx c ch (subscribe_to_channel env w c ch msg.sub_options)

-- The part of `handleCreateChannel` after the channel is there: it stops where the data that came
-- with the message cannot be unmarshalled.
pub fill_channel : Env → World → ChanRef → CreateChannelMessage → Option World
unfolding init_data
fill_channel env w ch msg =
    let w' = set_metadata w ch msg.metadata in
    elim msg.content [
      | none ↦ some (init_data env w' ch none msg.merge_options)
      | some content ↦ elim (env.unmarshal_new content) [
        | none ↦ none
        | some m ↦ some (init_data env w' ch (some m) msg.merge_options)
      ]
    ]

pub finish_creation :
    Env → World → MessageContext → ConnRef → ChanRef → ChanRef → CreateChannelMessage → World
unfolding fill_channel announce_channel subscribe_creator
finish_creation env w ctx c g ch msg = elim (fill_channel env w ch msg) [
  | none ↦ set_metadata w ch msg.metadata
  | some w' ↦ subscribe_creator env c ch msg (announce_channel env w' ctx c g ch)
]

pub after_creation :
    Env → World → MessageContext → ConnRef → ChanRef → CreateChannelMessage → CreateResult → World
unfolding finish_creation
after_creation env w ctx c g msg (created w' ch) = finish_creation env w' ctx c g ch msg
after_creation env w ctx c g msg (failed w' e) = w'
after_creation env w ctx c g msg stuck = w

-- `handleCreateSpatialChannel` of message_spatial.go comes as an argument.
abbrev pub SpatialCreator : Type 0
SpatialCreator = World → MessageContext → ConnRef → CreateChannelMessage → World

pub create_by_type :
    Env → SpatialCreator → World → MessageContext → ConnRef → ChanRef → CreateChannelMessage → World
unfolding after_creation finish_creation
create_by_type env create_spatial w ctx c g msg =
    if msg.channel_type == unknown_type
    then w
    else if msg.channel_type == global_type
    then if has_owner w g
      then w
      else finish_creation env
          (broadcast_event (set_owner w g (some c)) (global_channel_possessed g)) ctx c g g msg
    else if msg.channel_type == spatial_type
    then create_spatial w ctx c msg
    else after_creation env w ctx c g msg (create_channel env w msg.channel_type (some c))

-- `handleCreateChannel`, which only the GLOBAL channel runs.
unfoldable pub handle_create :
    Env → SpatialCreator → World → MessageContext → ConnRef → ChanRef → World
unfolding create_by_type
handle_create env create_spatial w ctx c ch = elim ctx.msg [
  | create_msg msg ↦
      if opt_eq w.global_channel (some ch)
      then create_by_type env create_spatial w ctx c ch msg
      else w
  | _ ↦ w
]

-- Every subscriber is told.
unfoldable pub tell_removed :
    Env → World → MessageContext → List (ConnRef × ChannelSubscription) → World
tell_removed env w ctx [] = w
tell_removed env w ctx ((c, cs) ∷ rest) =
    tell_removed env (send env w c (record ctx { stub_id = 0 })) ctx rest

-- `handleRemoveChannel`: the access is checked only for a sender that is still connected.
unfoldable pub handle_remove : Env → World → MessageContext → World
unfolding tell_removed
handle_remove env w ctx = elim ctx.msg [
  | remove_channel id ↦ elim (get_channel w id) [
    | none ↦ w
    | some ch ↦
        if has_connection w ctx
          && not (is_granted (check_acl env w ch ctx.connection remove_access))
        then w
        else remove_channel_ref (tell_removed env w ctx (w.chans ch).subscribed_connections) ch
  ]
  | _ ↦ w
]

pub any_keyword : List ℕ → List (List ℕ) → Bool
unfolding str_contains
any_keyword metadata [] = false
any_keyword metadata (k ∷ ks) = str_contains metadata k || any_keyword metadata ks

abbrev is_empty : List (List ℕ) → Bool
is_empty [] = true
is_empty (k ∷ ks) = false

-- The filter of `handleListChannel`.
unfoldable pub is_listed : Channel → ℕ → List (List ℕ) → Bool
unfolding any_keyword
is_listed chan type_filter keywords =
    if not (type_filter == unknown_type) && not (type_filter == chan.channel_type)
    then false
    else is_empty keywords || any_keyword chan.metadata keywords

abbrev pub info_of : Channel → ChannelInfo
info_of chan = record {
  channel_id = chan.id;
  channel_type = chan.channel_type;
  metadata = chan.metadata;
}

unfoldable pub list_channels : World → ℕ → List (List ℕ) → List (ℕ × ChanRef) → List ChannelInfo
list_channels w type_filter keywords [] = []
list_channels w type_filter keywords ((id, ch) ∷ rest) =
    let others = list_channels w type_filter keywords rest in
    if is_listed (w.chans ch) type_filter keywords then info_of (w.chans ch) ∷ others else others

unfoldable pub handle_list : Env → World → MessageContext → ConnRef → ChanRef → World
handle_list env w ctx c ch = elim ctx.msg [
  | list_channel type_filter keywords ↦
      if opt_eq w.global_channel (some ch)
      then send env w c (record ctx {
        msg = list_channel_result (list_channels w type_filter keywords w.all_channels);
      })
      else w
  | _ ↦ w
]

-- `handleDisconnect`: an expected close, after the socket was closed.
unfoldable pub handle_disconnect_msg : Env → World → MessageContext → ChanRef → World
handle_disconnect_msg env w ctx ch = elim ctx.msg [
  | disconnect conn_id ↦
      if opt_eq w.global_channel (some ch)
      then elim (get_connection w conn_id) [ none ↦ w | some target ↦ close env w target false ]
      else w
  | _ ↦ w
]
