-- ===== src/Receive/Allowed.antt =====
-- What the state machine lets through (`receiveMessage` of pkg/channeld/connection.go).
use channeld.Base.{suc, ◌≡◌, Bool, false, Option, none, some, ◌∷◌, arith}
use channeld.Fsm.{is_allowed}
use channeld.World.Types.{ConnRef, World, Env, MessagePack, fsm_disallowed}
use channeld.World.Access.{broadcast_event, set_conn}
use channeld.Connection.{close}
use channeld.Ddos.{on_fsm_disallowed}
use channeld.Receive.{receive_message, disallow}

close-chans : (env : Env) (w : World) (c : ConnRef) (b : Bool) → (close env w c b).chans ≡ w.chans
unfolding close
close-chans env w c b = ground arith

-- The listener of a disallowed message touches no channel.
disallow-chans : (env : Env) (w : World) (c : ConnRef) → (disallow env w c).chans ≡ w.chans
unfolding on_fsm_disallowed
disallow-chans env w c = ground (
  arith,
  close-chans env
      (record (set_conn w c
        (record (w.conns c) { fsm_disallowed_counter = suc (w.conns c).fsm_disallowed_counter })) {
          pit_blacklist = (w.conns c).pit ∷ w.pit_blacklist;
        })
      c false,
)

-- What the connection leaves behind: nothing for a panic.
abbrev pub Keeps : World → Option World → Type 0
Keeps w none = ⊥
Keeps w (some w') = w'.chans ≡ w.chans

-- A message whose type the state machine of its connection does not allow is handled without a
-- panic and is put to no channel.
receive_message-disallowed :
    (env : Env) (w : World) (c : ConnRef) (mp : MessagePack)
    → is_allowed (w.conns c).fsm mp.msg_type ≡ some false
    → Keeps w (receive_message env w c mp)
unfolding receive_message
receive_message-disallowed env w c mp refused =
    ground (arith, disallow-chans env (broadcast_event w (fsm_disallowed c)) c)
