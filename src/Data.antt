-- ===== src/Data.antt =====
-- The data of a channel and its updates (pkg/channeld/data.go).
pub mod Buffer
pub mod FanOut
use channeld.Base.{
  ℕ, suc, ◌+◌, Bool, true, false, Option, none, some, List, [], ◌∷◌, ◌++◌, ltb, length,
  if◌then◌else◌,
}
use channeld.Base.Int.{ℤ, ltb_ℤ}
use channeld.World.Types.{Env, ChannelData, UpdateMsgBufferElement}
use channeld.Subscription.{add_ms}

abbrev pub max_update_msg_buffer_size : ℕ
max_update_msg_buffer_size = 512

abbrev pub merge_update : Env → Option ℕ → ℕ → Option ℕ → Option ℕ
merge_update env none update_msg options = some update_msg
merge_update env (some msg) update_msg options =
    some (env.merge_with_options msg update_msg options)

-- Once the buffer is over its limit, the oldest element goes if it is old enough to have been
-- fanned out to everybody.
unfoldable pub trim_buffer : ℕ → ℤ → List UpdateMsgBufferElement → List UpdateMsgBufferElement
trim_buffer interval t [] = []
trim_buffer interval t (oldest ∷ rest) =
    if ltb max_update_msg_buffer_size (length (oldest ∷ rest))
    then if ltb_ℤ (add_ms oldest.arrival_time interval) t then rest else oldest ∷ rest
    else oldest ∷ rest

-- `ChannelData.OnUpdate`. The notifier of the spatial controller is called by the merge.
unfoldable pub on_update : Env → ChannelData → ℕ → ℤ → ℕ → ChannelData
unfolding trim_buffer
on_update env d update_msg t sender_conn_id =
    let index = suc d.msg_index in
    record d {
      msg = merge_update env d.msg update_msg d.merge_options;
      msg_index = index;
      update_msg_buffer = trim_buffer d.max_fan_out_interval_ms t (
          d.update_msg_buffer
          ++ record {
            update_msg = update_msg;
            arrival_time = t;
            sender_conn_id = sender_conn_id;
            message_index = index;
          }
            ∷ []);
    }
