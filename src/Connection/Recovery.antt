-- ===== src/Connection/Recovery.antt =====
-- The ticks of the connection recovery (pkg/channeld/connection_recovery.go).
pub mod Ended
use channeld.Base.{
  ℕ, ◌+◌, Bool, true, false, Option, none, some, List, [], ◌∷◌, ltb, if◌then◌else◌, remove,
}
use channeld.Base.Int.{pos}
use channeld.World.Types.{ConnRef, HandleRef, World, Env, MessageContext, end_recovery, no_sender}
use channeld.World.Access.{set_conn, send, no_broadcast}
use channeld.Connection.{is_time_out}

-- `ChannelDataRecoveryTimeout`, in nanoseconds.
abbrev pub recovery_timeout : ℕ
recovery_timeout = 1_000_000_000

abbrev pub recovery_end_type : ℕ
recovery_end_type = 21

-- The message that ends a recovery, on the GLOBAL channel.
abbrev pub recovery_end : MessageContext
recovery_end = record {
  msg_type = recovery_end_type;
  msg = end_recovery;
  broadcast = no_broadcast;
  stub_id = 0;
  channel_id = 0;
  connection = no_sender;
  channel = none;
  arrival_time = pos 0;
}

abbrev pub drop_handle : World → ℕ → World
drop_handle w key = record w { recover_handles = remove key w.recover_handles }

-- Whether a recovery that started has had the time that it gets.
abbrev pub is_over : World → HandleRef → Bool
is_over w h = ltb ((w.handles h).start_recovery_time + recovery_timeout) w.now

abbrev pub end_for : Env → World → ConnRef → World
end_for env w c =
    let w' = send env w c recovery_end in
    set_conn w' c (record (w'.conns c) { recover_handle = none })

-- The step of `tickConnectionRecovery` for one handle.
unfoldable pub tick_handle : Env → World → ℕ → HandleRef → World
unfolding is_time_out send set_conn remove
tick_handle env w key h =
    if is_time_out env w h then drop_handle w key else elim (w.handles h).new_conn [
      | none ↦ w
      | some c ↦ if is_over w h then drop_handle (end_for env w c) key else w
    ]

unfoldable pub tick_handles : Env → World → List (ℕ × HandleRef) → World
unfolding tick_handle
tick_handles env w [] = w
tick_handles env w ((key, h) ∷ rest) = tick_handles env (tick_handle env w key h) rest

-- One round of `tickConnectionRecovery`.
unfoldable pub tick_connection_recovery : Env → World → World
unfolding tick_handles
tick_connection_recovery env w = tick_handles env w w.recover_handles
