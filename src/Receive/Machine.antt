-- ===== src/Receive/Machine.antt =====
-- The state machine of a connection while it receives (`receiveMessage` of
-- pkg/channeld/connection.go).
use channeld.Base.{
  suc, ◌≡◌, refl, sym, ◌∙◌, ap, subst, Bool, true, false, Option, none, some, ◌∷◌, arith, update,
}
use channeld.Fsm.{FiniteStateMachine, is_allowed, on_received}
use channeld.Fsm.Sound.{IsSound}
use channeld.Fsm.Moves.{SoundResult, on_received-IsSound, is_allowed-IsSound}
use channeld.World.Types.{
  ConnRef, ChanRef, World, Env, Connection, MessagePack, Handler, Message, fsm_disallowed,
}
use channeld.World.Access.{get_channel, broadcast_event, set_conn}
use channeld.Connection.{close, make_recoverable}
use channeld.Ddos.{on_fsm_disallowed}
use channeld.Receive.{receive_message, is_undefined, decode, put_message, with_fsm, disallow}

-- The machine of the connection after a message, which was handled without a panic, is sound.
abbrev pub SoundAfter : ConnRef → Option World → Type 0
SoundAfter c none = ⊥
SoundAfter c (some w) = IsSound (w.conns c).fsm

close-fsm :
    (env : Env) (w : World) (c : ConnRef) (b : Bool) (d : ConnRef)
    → ((close env w c b).conns d).fsm ≡ (w.conns d).fsm
unfolding close set_conn update make_recoverable
close-fsm env w c b d = ground arith

disallow-fsm :
    (env : Env) (w : World) (c : ConnRef) → ((disallow env w c).conns c).fsm ≡ (w.conns c).fsm
unfolding on_fsm_disallowed set_conn update
disallow-fsm env w c = ground (
  arith,
  close-fsm env
      (record (set_conn w c
        (record (w.conns c) { fsm_disallowed_counter = suc (w.conns c).fsm_disallowed_counter })) {
          pit_blacklist = (w.conns c).pit ∷ w.pit_blacklist;
        })
      c false c,
)

put_message-conns :
    (w : World) (ch : ChanRef) (msg : Message) (handler : Handler) (c : ConnRef) (mp : MessagePack)
    → (put_message w ch msg handler c mp).conns ≡ w.conns
unfolding put_message
put_message-conns w ch msg handler c mp = ground arith

-- A message on a connection whose state machine is sound is handled without a panic, and the
-- machine is sound afterwards.
pub receive_message-IsSound :
    (env : Env) (w : World) (c : ConnRef) (mp : MessagePack)
    → IsSound (w.conns c).fsm
    → SoundAfter c (receive_message env w c mp)
unfolding receive_message update set_conn broadcast_event
receive_message-IsSound env w c mp sound = found (get_channel w mp.channel_id) refl
  where
    moved :
        (ch : ChanRef) (msg : Message) (handler : Handler) (fsm : FiniteStateMachine)
        → IsSound fsm
        → IsSound
            ((put_message (set_conn w c (with_fsm (w.conns c) fsm)) ch msg handler c mp).conns
              c).fsm
    moved ch msg handler fsm s =
        subst IsSound
          (sym (
            ap (λ (k : ConnRef → Connection). (k c).fsm)
              (put_message-conns (set_conn w c (with_fsm (w.conns c) fsm)) ch msg handler c mp)
            ∙ kept fsm))
          s
      where
        kept : (f : FiniteStateMachine) → ((set_conn w c (with_fsm (w.conns c) f)).conns c).fsm ≡ f
        kept f = ground arith

    refused : IsSound ((disallow env (broadcast_event w (fsm_disallowed c)) c).conns c).fsm
    refused = subst IsSound (sym (disallow-fsm env (broadcast_event w (fsm_disallowed c)) c)) sound

    received :
        (ch : ChanRef) (msg : Message) (handler : Handler) (o : Option FiniteStateMachine)
        → SoundResult o
        → get_channel w mp.channel_id ≡ some ch
        → is_undefined mp.msg_type ≡ false
        → is_allowed (w.conns c).fsm mp.msg_type ≡ some true
        → decode env w c mp ≡ some (msg, handler)
        → on_received (w.conns c).fsm mp.msg_type ≡ o
        → SoundAfter c (receive_message env w c mp)
    received ch msg handler none s e u a d r = absurd s
    received ch msg handler (some fsm) s e u a d r =
        rw (receive_message, e, u, a, d, r) (moved ch msg handler fsm s)

    decoded :
        (ch : ChanRef) (o : Option (Message × Handler))
        → get_channel w mp.channel_id ≡ some ch
        → is_undefined mp.msg_type ≡ false
        → is_allowed (w.conns c).fsm mp.msg_type ≡ some true
        → decode env w c mp ≡ o
        → SoundAfter c (receive_message env w c mp)
    decoded ch none e u a d = rw (receive_message, e, u, a, d) sound
    decoded ch (some (msg, handler)) e u a d =
        received ch msg handler (on_received (w.conns c).fsm mp.msg_type)
          (on_received-IsSound (w.conns c).fsm mp.msg_type sound) e u a d refl

    allowed :
        (ch : ChanRef) (o : Option Bool)
        → get_channel w mp.channel_id ≡ some ch
        → is_undefined mp.msg_type ≡ false
        → is_allowed (w.conns c).fsm mp.msg_type ≡ o
        → SoundAfter c (receive_message env w c mp)
    allowed ch none e u a = absurd (is_allowed-IsSound (w.conns c).fsm mp.msg_type sound a)
    allowed ch (some false) e u a = rw (receive_message, e, u, a) refused
    allowed ch (some true) e u a = decoded ch (decode env w c mp) e u a refl

    defined :
        (ch : ChanRef) (b : Bool)
        → get_channel w mp.channel_id ≡ some ch
        → is_undefined mp.msg_type ≡ b
        → SoundAfter c (receive_message env w c mp)
    defined ch true e u = rw (receive_message, e, u) sound
    defined ch false e u = allowed ch (is_allowed (w.conns c).fsm mp.msg_type) e u refl

    found :
        (o : Option ChanRef)
        → get_channel w mp.channel_id ≡ o
        → SoundAfter c (receive_message env w c mp)
    found none e = rw (receive_message, e) sound
    found (some ch) e = defined ch (is_undefined mp.msg_type) e refl
