-- ===== src/Spatial/Handover.antt =====
-- An entity that moves from one spatial channel to another: `Notify` of
-- `StaticGrid2DSpatialController` (pkg/channeld/spatial.go). It runs as one step.
pub mod Frame
pub mod Owners
pub mod Loops
pub mod Sent
pub mod Locked
use channeld.Base.{
  ℕ, Bool, true, false, ◌||◌, Option, none, some, List, [], ◌∷◌, ◌==◌, opt_eq, if◌then◌else◌,
  has_key,
}
use channeld.World.Types.{
  ConnRef, ChanRef, World, Env, MessageContext, Message, channel_data_handover, SubOptions,
  ChannelSubscription, SpatialInfo, no_sender,
}
use channeld.World.Access.{
  is_closing, send, get_channel, get_owner, set_owner, is_same_owner, spatial_type,
}
use channeld.Channel.Ticks.{no_context}
use channeld.Subscription.{
  subscribe_to_channel, unsubscribe_from_channel, send_subscribed, send_unsubscribed,
  has_interest_in,
}
use channeld.Handlers.Groups.{get_handover_entities}
use channeld.Spatial.{Floats, Grid, get_channel_id}

-- The entities of a handover with the data of their channels.
abbrev pub Moving : Type 0
Moving = List (ℕ × Option ℕ)

-- What `Execute` puts into the queue of a channel.
pub data Execution : Type 0 where
  to_remove to_add : Moving → Execution

-- The application: the data of a spatial channel (`SpatialChannelEntityUpdater`, where `none` is an
-- error), that of an entity (`HandoverDataMerger`; other data leave the message as it is), and the
-- callback that tells which entity has moved.
pub record HandoverEnv : Type 0 where
  pub is_updater : ℕ → Bool
  pub remove_entity : (message entity_id : ℕ) → Option ℕ
  pub add_entity : (message entity_id entity_data : ℕ) → Option ℕ
  pub merge_to : (entity_data message : ℕ) (full : Bool) → ℕ
  pub new_message : ℕ → ℕ
  pub handover_data_provider : (src_id dst_id : ℕ) → ℕ

-- The loops of the two callbacks over the data of a channel.
unfoldable pub remove_each : HandoverEnv → Moving → ℕ → ℕ
remove_each h [] m = m
remove_each h ((id, d) ∷ es) m = elim (h.remove_entity m id) [
  | none ↦ remove_each h es m
  | some m' ↦ remove_each h es m'
]

unfoldable pub add_each : HandoverEnv → Moving → ℕ → ℕ
add_each h [] m = m
add_each h ((id, none) ∷ es) m = add_each h es m
add_each h ((id, some d) ∷ es) m = elim (h.add_entity m id d) [
  | none ↦ add_each h es m
  | some m' ↦ add_each h es m'
]

abbrev apply_to : HandoverEnv → Execution → ℕ → ℕ
apply_to h (to_remove es) m = remove_each h es m
apply_to h (to_add es) m = add_each h es m

-- A callback that runs on the data of its channel.
unfoldable pub execute : HandoverEnv → Execution → ℕ → ℕ
unfolding remove_each add_each
execute h e m = if h.is_updater m then apply_to h e m else m

-- Step 1: the server of the source channel leaves the channel of an entity, unless it has an interest
-- in the destination.
abbrev pub leave_source : Env → World → Option ConnRef → ℕ → ChanRef → World
leave_source env w none dst_id entity_ch = w
leave_source env w (some c) dst_id entity_ch =
    if is_closing w c || has_interest_in w c dst_id
    then w
    else send_unsubscribed env (unsubscribe_from_channel w c entity_ch).0 c no_context entity_ch
        none 0

abbrev pub change_owner : Env → World → ChanRef → ChanRef → ℕ → Option ChanRef → World
change_owner env w src dst dst_id none = w
change_owner env w src dst dst_id (some entity_ch) =
    let w' = leave_source env w (get_owner w src) dst_id entity_ch in
    set_owner w' entity_ch (get_owner w' dst)

unfoldable pub change_owners : Env → World → ChanRef → ChanRef → ℕ → Moving → World
unfolding set_owner send_unsubscribed unsubscribe_from_channel has_interest_in get_channel
change_owners env w src dst dst_id [] = w
change_owners env w src dst dst_id ((id, d) ∷ es) =
    change_owners env (change_owner env w src dst dst_id (get_channel w id)) src dst dst_id es

-- Step 3-1: the identifiers of the entities.
unfoldable pub merge_ids : HandoverEnv → Moving → ℕ → ℕ
merge_ids h [] m = m
merge_ids h ((id, none) ∷ es) m = merge_ids h es m
merge_ids h ((id, some d) ∷ es) m = merge_ids h es (h.merge_to d m false)

abbrev pub handover_type : ℕ
handover_type = 12

abbrev pub handover_context : (src_id dst_id data_any context_conn_id : ℕ) → MessageContext
handover_context src_id dst_id data_any context_conn_id = record no_context {
  msg_type = handover_type;
  msg = channel_data_handover src_id dst_id data_any context_conn_id;
  channel_id = dst_id;
}

-- Step 4-1: those who are not subscribed to the destination.
unfoldable pub send_to_source :
    Env
    → World
    → MessageContext
    → (src_subs dst_subs : List (ConnRef × ChannelSubscription)) → World
send_to_source env w ctx [] dst_subs = w
send_to_source env w ctx ((c, cs) ∷ rest) dst_subs =
    send_to_source env (if has_key c dst_subs then w else send env w c ctx) ctx rest dst_subs

abbrev pub handover_options : Bool → SubOptions
handover_options is_owner = record {
  data_access = some (if is_owner then 2 else 1);
  data_field_masks = [];
  fan_out_interval_ms = none;
  fan_out_delay_ms = none;
  skip_self_update_fan_out = some true;
  skip_first_fan_out = some true;
}

-- A connection subscribes to the channel of an entity and is told so; the message takes the data in,
-- all of it where the connection is told. A closing connection changes neither.
abbrev pub after_subscribing :
    HandoverEnv
    → Env
    → ConnRef
    → ChanRef
    → (entity_data message : ℕ) → World × Option ChannelSubscription × Bool
    → World × ℕ
after_subscribing h env c entity_ch d m (w, none, should_send) = (w, m)
after_subscribing h env c entity_ch d m (w, some cs, should_send) = (
  if should_send then send_subscribed env w c no_context entity_ch c 0 cs.options else w,
  h.merge_to d m should_send,
)

abbrev pub take_over :
    HandoverEnv → Env → World → ConnRef → ℕ → Option ChanRef → Option ℕ → World × ℕ
take_over h env w c m none d = (w, m)
take_over h env w c m (some entity_ch) none = (w, m)
take_over h env w c m (some entity_ch) (some d) = after_subscribing h env c entity_ch d m (
    subscribe_to_channel env w c entity_ch
      (some (handover_options (opt_eq (get_owner w entity_ch) (some c)))))

-- The loop of step 4-2 over the entities.
unfoldable pub take_over_each : HandoverEnv → Env → World → ConnRef → ℕ → Moving → World × ℕ
unfolding subscribe_to_channel send_subscribed get_channel
take_over_each h env w c m [] = (w, m)
take_over_each h env w c m ((id, d) ∷ es) =
    let (w', m') = take_over h env w c m (get_channel w id) d in take_over_each h env w' c m' es

abbrev pub send_any : Env → World → ConnRef → (src_id dst_id context_conn_id : ℕ) → Option ℕ → World
send_any env w c src_id dst_id context_conn_id none = w
send_any env w c src_id dst_id context_conn_id (some data_any) =
    send env w c (handover_context src_id dst_id data_any context_conn_id)

-- Step 4-2: those who are subscribed to the destination.
unfoldable pub send_to_destination :
    HandoverEnv
    → Env
    → World
    → (src_id dst_id context_conn_id message : ℕ) → Moving
    → List (ConnRef × ChannelSubscription)
    → World
unfolding take_over_each
send_to_destination h env w src_id dst_id ctx_id m es [] = w
send_to_destination h env w src_id dst_id ctx_id m es ((c, cs) ∷ rest) =
    let (w', m') = take_over_each h env w c (h.new_message m) es in
    send_to_destination h env (send_any env w' c src_id dst_id ctx_id (env.wrap_any m')) src_id
      dst_id ctx_id m es rest

-- Step 4.
abbrev pub send_handover :
    HandoverEnv
    → Env
    → World
    → (src dst : ChanRef) → (src_id dst_id message data_any : ℕ) → Moving
    → World
send_handover h env w src dst src_id dst_id m data_any es =
    let ctx_id = (w.chans src).latest_data_update_conn_id in
    let dst_subs = (w.chans dst).subscribed_connections in
    let w' =
      send_to_source env w (handover_context src_id dst_id data_any ctx_id)
        (w.chans src).subscribed_connections dst_subs in
    send_to_destination h env w' src_id dst_id ctx_id m es dst_subs

-- Where the message cannot be wrapped, nothing is sent.
abbrev pub send_wrapped :
    HandoverEnv
    → Env
    → World
    → (src dst : ChanRef) → (src_id dst_id message : ℕ) → Moving
    → Option ℕ
    → World
send_wrapped h env w src dst src_id dst_id m es none = w
send_wrapped h env w src dst src_id dst_id m es (some data_any) =
    send_handover h env w src dst src_id dst_id m data_any es

-- The process, and what was put into the queues of the channels, oldest first.
abbrev pub Notified : Type 0
Notified = World × List (ChanRef × Execution)

-- Steps 1 to 4 with the entities that move, where the spatial data have been created.
unfoldable pub hand_over :
    HandoverEnv
    → Env
    → World
    → (src dst : ChanRef) → (src_id dst_id message : ℕ) → Moving
    → Notified
unfolding is_same_owner change_owners merge_ids send_to_source send_to_destination
hand_over h env w src dst src_id dst_id m es =
    let w' = if is_same_owner w src dst then w else change_owners env w src dst dst_id es in
    let m' = merge_ids h es m in
    (
      send_wrapped h env w' src dst src_id dst_id m' es (env.wrap_any m'),
      (src, to_remove es) ∷ (dst, to_add es) ∷ [],
    )

-- Nothing moves without entities.
abbrev pub start_handover :
    HandoverEnv
    → Env
    → World
    → (src dst : ChanRef) → (src_id dst_id message : ℕ) → Option Moving
    → Notified
start_handover h env w src dst src_id dst_id m none = (w, [])
start_handover h env w src dst src_id dst_id m (some []) = (w, [])
start_handover h env w src dst src_id dst_id m (some (e ∷ es)) =
    hand_over h env w src dst src_id dst_id m (e ∷ es)

-- The part of `Notify` from the channels on. A channel without an owner is only logged.
unfoldable pub notify_channels :
    HandoverEnv → Env → World → (src dst : ChanRef) → (src_id dst_id : ℕ) → Notified
unfolding hand_over get_channel get_handover_entities
notify_channels h env w src dst src_id dst_id = elim (env.new_data_message spatial_type) [
  | none ↦ (w, [])
  | some m ↦ elim (get_channel w (h.handover_data_provider src_id dst_id)) [
    | none ↦ (w, [])
    | some entity_ch ↦
        start_handover h env w src dst src_id dst_id (env.init_message m)
          (get_handover_entities w entity_ch)
  ]
]

-- `Notify`.
unfoldable pub notify :
    HandoverEnv → Floats → Env → Grid → World → (old_info new_info : SpatialInfo) → Notified
unfolding notify_channels get_channel_id get_channel
notify h fl env g w old_info new_info = elim (get_channel_id fl env g old_info) [
  | none ↦ (w, [])
  | some src_id ↦ elim (get_channel_id fl env g new_info) [
    | none ↦ (w, [])
    | some dst_id ↦ if dst_id == src_id then (w, []) else elim (get_channel w src_id) [
      | none ↦ (w, [])
      | some src ↦ elim (get_channel w dst_id) [
        | none ↦ (w, [])
        | some dst ↦ notify_channels h env w src dst src_id dst_id
      ]
    ]
  ]
]
