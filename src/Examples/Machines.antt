-- ===== src/Examples/Machines.antt =====
-- Examples of the state machine, the id search, and what a connection receives.
use channeld.Base.{ℕ, ◌≡◌, refl, Bool, true, false, some, [], ltb, arith}
use channeld.Ids.{get_next_id}
use channeld.Fsm.{is_allowed}
use channeld.Fsm.Sound.{IsSound}
use channeld.World.Types.{MessagePack}
use channeld.Receive.{receive_message}
use channeld.Receive.Machine.{SoundAfter, receive_message-IsSound}
use channeld.Examples.{machine, env, world}

abbrev pack : ℕ → MessagePack
pack t = record { channel_id = 0; broadcast = 0; stub_id = 0; msg_type = t; msg_body = [] }

machine-IsSound : IsSound machine
machine-IsSound = record {
  points = omega arith;
  targets = ((omega arith, tt), tt);
  names = (omega arith, tt);
}

-- Ids 1 and 2 are in use.
abbrev low_used : ℕ → Bool
low_used id = ltb id 3

next_is_3 : get_next_id low_used 1 1 4 ≡ some (3, true)
unfolding get_next_id
next_is_3 = refl

none_is_free : get_next_id (λ id. true) 1 1 2 ≡ some (0, false)
unfolding get_next_id
none_is_free = refl

refuses_9 : is_allowed machine 9 ≡ some false
unfolding is_allowed
refuses_9 = refl

receive_message-IsSound_example : SoundAfter 2 (receive_message env world 2 (pack 8))
receive_message-IsSound_example = receive_message-IsSound env world 2 (pack 8) machine-IsSound
