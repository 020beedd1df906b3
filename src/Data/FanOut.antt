-- ===== src/Data/FanOut.antt =====
-- The fan-out of updates (`tickData` and `fanOutDataUpdate` of pkg/channeld/data.go). The scratch
-- message that the code keeps between the calls is not kept: each round resets it.
pub mod Window
pub mod Ending
pub mod First
use channeld.Base.{
  ℕ, zero, suc, Bool, true, false, not, ◌&&◌, ◌||◌, Option, none, some, List, [], ◌∷◌, ◌++◌, ◌==◌,
  if◌then◌else◌, lookup,
}
use channeld.Base.Int.{ℤ, pos, leb_ℤ}
use channeld.World.Types.{
  ConnRef, ChanRef, World, Env, Options, ChannelData, ChannelSubscription, FanOutConnection,
  UpdateMsgBufferElement, MessageContext, channel_data_update, no_sender,
}
use channeld.World.Access.{is_closing, set_chan, send}
use channeld.Subscription.{add_ms}

abbrev pub no_access : ℕ
no_access = 0

abbrev pub data_update_type : ℕ
data_update_type = 8

abbrev pub data_update : World → ChanRef → ℕ → MessageContext
data_update w ch content = record {
  msg_type = data_update_type;
  msg = channel_data_update content 0;
  broadcast = 0;
  stub_id = 0;
  channel_id = (w.chans ch).id;
  connection = no_sender;
  channel = some ch;
  arrival_time = pos 0;
}

-- `fanOutDataUpdate`, with the message as the filter leaves it.
unfoldable pub fan_out_data_update : Env → World → ChanRef → ConnRef → Options → ℕ → World × ℕ
fan_out_data_update env w ch c o update_msg =
    let filtered = env.filter_fields o.data_field_masks update_msg in
    (
      elim (env.wrap_any filtered) [
        | none ↦ w
        | some content ↦ send env w c (data_update w ch content)
      ],
      filtered,
    )

-- What the loop over the buffer has merged, and the two cursors that it moves.
pub record Collected : Type 0 where
  pub merged : Option ℕ
  pub last_update_time : ℤ
  pub last_message_index : ℕ

-- An update that its own sender asked not to get back.
abbrev pub is_own : ℕ → Options → UpdateMsgBufferElement → Bool
is_own conn_id o be = be.sender_conn_id == conn_id && o.skip_self_update_fan_out

abbrev pub merge_next : Env → Option ℕ → Option ℕ → ℕ → ℕ
merge_next env options none update_msg = env.merge_into_new update_msg
merge_next env options (some m) update_msg = env.merge_with_options m update_msg options

abbrev pub take_in : Env → Option ℕ → ℤ → UpdateMsgBufferElement → Collected → Collected
take_in env options next be s =
    if leb_ℤ s.last_update_time be.arrival_time && leb_ℤ be.arrival_time next
    then record {
      merged = some (merge_next env options s.merged be.update_msg);
      last_update_time = be.arrival_time;
      last_message_index = be.message_index;
    }
    else s

-- The loop over the buffer.
unfoldable pub collect :
    Env → Option ℕ → ℕ → Options → ℤ → List UpdateMsgBufferElement → Collected → Collected
collect env options conn_id o next [] s = s
collect env options conn_id o next (be ∷ rest) s =
    collect env options conn_id o next rest
      (if is_own conn_id o be then s else take_in env options next be s)

abbrev pub at_least_zero : ℤ → ℤ
at_least_zero t = if leb_ℤ (pos 0) t then t else pos 0

abbrev pub set_data_msg : World → ChanRef → ChannelData → ℕ → World
set_data_msg w ch d m =
    set_chan w ch (record (w.chans ch) { channel_data = some (record d { msg = some m }) })

-- The whole data, the first time. The filter works on the message of the channel itself.
pub first_fan_out :
    Env
    → World
    → ChanRef
    → Options
    → ChannelData
    → ℕ
    → ℤ
    → FanOutConnection
    → World × FanOutConnection
unfolding fan_out_data_update set_chan
first_fan_out env w ch o d msg t foc =
    let sent = fan_out_data_update env w ch foc.conn o msg in
    (
      set_data_msg sent.0 ch d sent.1,
      record foc {
        had_first_fan_out = true;
        last_message_index = d.msg_index;
        last_fan_out_time = t;
      },
    )

abbrev pub send_merged : Env → World → ChanRef → ConnRef → Options → Option ℕ → World
send_merged env w ch c o none = w
send_merged env w ch c o (some m) = (fan_out_data_update env w ch c o m).0

-- The updates since the last time.
pub next_fan_out :
    Env → World → ChanRef → Options → ChannelData → ℤ → FanOutConnection → World × FanOutConnection
unfolding collect fan_out_data_update
next_fan_out env w ch o d next foc =
    let got = collect env d.merge_options (w.conns foc.conn).id o next d.update_msg_buffer (record {
      merged = none;
      last_update_time = at_least_zero foc.last_fan_out_time;
      last_message_index = foc.last_message_index;
    }) in
    (
      send_merged env w ch foc.conn o got.merged,
      record foc { last_message_index = got.last_message_index; last_fan_out_time = next },
    )

-- The elements of the queue that were fanned out no later.
pub has_earlier : FanOutConnection → List FanOutConnection → Bool
has_earlier foc [] = false
has_earlier foc (e ∷ es) = leb_ℤ e.last_fan_out_time foc.last_fan_out_time || has_earlier foc es

-- `MoveAfter` the last of these, if there is one behind the element itself.
pub move_back : FanOutConnection → List FanOutConnection → List FanOutConnection
unfolding has_earlier
move_back foc [] = foc ∷ []
move_back foc (e ∷ es) =
    let rest = move_back foc es in if has_earlier foc (e ∷ es) then e ∷ rest else foc ∷ e ∷ es

-- A round for an element that is due.
pub fan_out : Env → World → ChanRef → Options → ℤ → FanOutConnection → World × FanOutConnection
unfolding first_fan_out next_fan_out
fan_out env w ch o t foc = elim (w.chans ch).channel_data [
  | none ↦ (w, foc)
  | some d ↦ elim d.msg [
    | none ↦ (w, foc)
    | some msg ↦
        if foc.had_first_fan_out
        then next_fan_out env w ch o d (add_ms foc.last_fan_out_time o.fan_out_interval_ms) foc
        else first_fan_out env w ch o d msg t foc
  ]
]

-- The world, the elements that the loop has passed, and those from its position on.
abbrev pub Position : Type 0
Position = World × List FanOutConnection × List FanOutConnection

abbrev pub after_fan_out :
    List FanOutConnection → List FanOutConnection → World × FanOutConnection → Position
after_fan_out passed rest r = (r.0, passed, move_back r.1 rest)

pub visit_due :
    Env
    → ChanRef
    → ℤ
    → World
    → List FanOutConnection
    → FanOutConnection
    → List FanOutConnection
    → Options
    → Position
unfolding fan_out move_back add_ms
visit_due env ch t w passed foc rest o =
    if leb_ℤ (add_ms foc.last_fan_out_time o.fan_out_interval_ms) t
    then after_fan_out passed rest (fan_out env w ch o t foc)
    else (w, passed ++ foc ∷ [], rest)

-- One round of the loop of `tickData`.
pub visit :
    Env
    → ChanRef
    → ℤ
    → World
    → List FanOutConnection
    → FanOutConnection
    → List FanOutConnection
    → Position
unfolding visit_due lookup is_closing
visit env ch t w passed foc rest =
    if is_closing w foc.conn
    then (w, passed, rest)
    else elim (lookup foc.conn (w.chans ch).subscribed_connections) [
      | none ↦ (w, passed ++ foc ∷ [], rest)
      | some cs ↦
          if cs.options.data_access == no_access
          then (w, passed ++ foc ∷ [], rest)
          else visit_due env ch t w passed foc rest cs.options
    ]

-- The loop, with the rounds left; `none` is a loop that has not ended.
unfoldable pub tick_from : Env → ChanRef → ℤ → ℕ → Position → Option (World × List FanOutConnection)
unfolding visit
tick_from env ch t zero (w, passed, rest) = none
tick_from env ch t (suc fuel) (w, passed, []) = some (w, passed)
tick_from env ch t (suc fuel) (w, passed, foc ∷ rest) =
    tick_from env ch t fuel (visit env ch t w passed foc rest)

abbrev pub has_data : Option ChannelData → Bool
has_data none = false
has_data (some d) = elim d.msg [ none ↦ false | some _ ↦ true ]

abbrev pub put_queue : ChanRef → World → List FanOutConnection → World
put_queue ch w q = set_chan w ch (record (w.chans ch) { fan_out_queue = q })

-- `tickData`.
unfoldable pub tick_data : Env → ℕ → World → ChanRef → ℤ → Option World
unfolding tick_from set_chan
tick_data env fuel w ch t =
    if has_data (w.chans ch).channel_data
    then elim (tick_from env ch t fuel (w, [], (w.chans ch).fan_out_queue)) [
      | none ↦ none
      | some (w', q) ↦ some (put_queue ch w' q)
    ]
    else some w
