-- ===== src/Spatial/Interest/Update.antt =====
-- `handleUpdateSpatialInterest` (pkg/channeld/message_spatial.go): the subscriptions of a client to
-- spatial channels follow its area of interest. `ctx.channel` is the channel that runs the handler.
use channeld.Base.{ℕ, Option, none, some, List, [], ◌∷◌, leb, opt_eq, if◌then◌else◌}
use channeld.Ids.{difference}
use channeld.World.Types.{
  ConnRef, ChanRef, World, Env, MessageContext, update_spatial_interest, sub_to_channel,
  unsub_from_channel, SubOptions, handle_sub_to_channel, handle_unsub_from_channel, sender,
}
use channeld.World.Access.{get_connection, get_channel, get_channel_settings, spatial_type}
use channeld.Channel.{put_message_context}
use channeld.Channel.Ticks.{no_context}
use channeld.Subscription.{sub_to_channel_type, unsub_from_channel_type}
use channeld.Handlers.Subscribe.{handle_sub, handle_unsub}
use channeld.Spatial.{Grid}
use channeld.Spatial.Interest.{
  Geometry, Distances, QueryResult, found, query_error, query_panic, endless,
}
use channeld.Spatial.Interest.Queries.{query_channel_ids}

pub record SpatialDampingSettings : Type 0 where
  pub max_distance : ℕ
  pub fan_out_interval_ms : ℕ
  pub data_field_masks : List ℕ

abbrev pub spatial_damping_settings : List SpatialDampingSettings
spatial_damping_settings =
    record { max_distance = 0; fan_out_interval_ms = 20; data_field_masks = [] }
    ∷ record { max_distance = 1; fan_out_interval_ms = 50; data_field_masks = [] }
    ∷ record { max_distance = 2; fan_out_interval_ms = 100; data_field_masks = [] }
    ∷ []

-- `getSpatialDampingSettings`, of a list of settings.
abbrev pub damping_of : List SpatialDampingSettings → ℕ → Option SpatialDampingSettings
damping_of [] dist = none
damping_of (s ∷ rest) dist = if leb dist s.max_distance then some s else damping_of rest dist

abbrev pub interval_options : ℕ → List ℕ → SubOptions
interval_options ms masks = record {
  data_access = none;
  data_field_masks = masks;
  fan_out_interval_ms = some ms;
  fan_out_delay_ms = none;
  skip_self_update_fan_out = none;
  skip_first_fan_out = none;
}

-- The options for a channel at a distance.
unfoldable pub options_at : Env → ℕ → SubOptions
unfolding get_channel_settings
options_at env dist = elim (damping_of spatial_damping_settings dist) [
  | none ↦ interval_options (get_channel_settings env spatial_type).default_fan_out_interval_ms []
  | some s ↦ interval_options s.fan_out_interval_ms s.data_field_masks
]

unfoldable pub channels_to_sub : Env → Distances → List (ℕ × SubOptions)
unfolding options_at
channels_to_sub env [] = []
channels_to_sub env ((id, dist) ∷ m) = (id, options_at env dist) ∷ channels_to_sub env m

-- The contexts of the messages to the channels.
abbrev pub unsub_context : MessageContext → ConnRef → ChanRef → ℕ → MessageContext
unsub_context ctx client ch conn_id = record no_context {
  channel_id = ctx.channel_id;
  channel = some ch;
  msg_type = unsub_from_channel_type;
  msg = unsub_from_channel conn_id;
  connection = sender client;
  stub_id = ctx.stub_id;
}

abbrev pub sub_context : MessageContext → ConnRef → ChanRef → ℕ → SubOptions → MessageContext
sub_context ctx client ch conn_id options = record no_context {
  channel_id = ctx.channel_id;
  channel = some ch;
  msg_type = sub_to_channel_type;
  msg = sub_to_channel conn_id (some options);
  connection = sender client;
}

-- A channel handles the message itself where it runs the handler.
abbrev pub unsub_one : Env → World → MessageContext → ConnRef → ℕ → Option ChanRef → World
unsub_one env w ctx client conn_id none = w
unsub_one env w ctx client conn_id (some ch) =
    let ctx' = unsub_context ctx client ch conn_id in
    if opt_eq ctx.channel (some ch)
    then handle_unsub env w ctx' client ch
    else put_message_context w ch ctx' handle_unsub_from_channel

unfoldable pub unsub_each {ℓ} :
    {A : Type ℓ} → Env → MessageContext → ConnRef → ℕ → List (ℕ × A) → World → World
unfolding handle_unsub put_message_context get_channel
unsub_each env ctx client conn_id [] w = w
unsub_each env ctx client conn_id ((id, v) ∷ rest) w =
    unsub_each env ctx client conn_id rest (unsub_one env w ctx client conn_id (get_channel w id))

abbrev pub sub_one :
    Env → World → MessageContext → ConnRef → ℕ → SubOptions → Option ChanRef → World
sub_one env w ctx client conn_id options none = w
sub_one env w ctx client conn_id options (some ch) =
    let ctx' = sub_context ctx client ch conn_id options in
    if opt_eq ctx.channel (some ch)
    then handle_sub env w ctx' client ch
    else put_message_context w ch ctx' handle_sub_to_channel

unfoldable pub sub_each : Env → MessageContext → ConnRef → ℕ → List (ℕ × SubOptions) → World → World
unfolding handle_sub put_message_context get_channel
sub_each env ctx client conn_id [] w = w
sub_each env ctx client conn_id ((id, options) ∷ rest) w =
    sub_each env ctx client conn_id rest
      (sub_one env w ctx client conn_id options (get_channel w id))

-- The part of the handler after the query.
unfoldable pub update_subscriptions : Env → World → MessageContext → ConnRef → ℕ → Distances → World
unfolding unsub_each sub_each channels_to_sub difference
update_subscriptions env w ctx client conn_id m =
    let to_sub = channels_to_sub env m in
    sub_each env ctx client conn_id to_sub (
      unsub_each env ctx client conn_id (difference (w.conns client).spatial_subscriptions to_sub)
        w)

-- What the handler ends with; a panic and loops that do not end are those of the query.
pub data UpdateResult : Type 0 where
  updated : World → UpdateResult
  update_panic update_endless : UpdateResult

abbrev pub after_query : Env → World → MessageContext → ConnRef → ℕ → QueryResult → UpdateResult
after_query env w ctx client conn_id (found m) =
    updated (update_subscriptions env w ctx client conn_id m)
after_query env w ctx client conn_id query_error = updated w
after_query env w ctx client conn_id query_panic = update_panic
after_query env w ctx client conn_id endless = update_endless

unfoldable pub handle_update_interest :
    Geometry → Env → Grid → ℕ → World → MessageContext → UpdateResult
unfolding get_connection query_channel_ids update_subscriptions
handle_update_interest geo env g fuel w ctx = elim ctx.msg [
  | update_spatial_interest conn_id query ↦
      if env.has_spatial_controller
      then elim (get_connection w conn_id) [
        | none ↦ updated w
        | some client ↦
            after_query env w ctx client conn_id (query_channel_ids geo env g fuel query)
      ]
      else updated w
  | _ ↦ updated w
]
