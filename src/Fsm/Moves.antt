-- ===== src/Fsm/Moves.antt =====
-- The moves of a sound machine (pkg/fsm/fsm.go).
use channeld.Base.{
  ℕ, Bool, zero, suc, ◌+◌, ◌-◌, ◌≤◌, ◌≡◌, refl, ◌≢◌, Option, none, some, arith, lookup, length,
  if-cases,
}
use channeld.Fsm.{
  State, FiniteStateMachine, on_received, is_allowed, state_at, move_to_next_state, move_from,
  current, points_to,
}
use channeld.Fsm.Sound.{
  IsSound, Below, PointsBelow, lookup-Below, get_elem?-below, get_elem?-AllTargets,
}

-- A machine there is, and it is sound.
abbrev pub SoundResult : Option FiniteStateMachine → Type 0
SoundResult none = ⊥
SoundResult (some fsm) = IsSound fsm

current-found :
    (fsm : FiniteStateMachine) (o : Option ℕ)
    → PointsBelow (length fsm.states) o
    → state_at fsm o ≢ none
unfolding state_at
current-found fsm none p = absurd p
current-found fsm (some i) p = get_elem?-below fsm.states i p

current-targets :
    (fsm : FiniteStateMachine) (o : Option ℕ) (s : State)
    → IsSound fsm
    → state_at fsm o ≡ some s
    → Below (length fsm.states) s.transitions
unfolding state_at
current-targets fsm none s sound e = ground arith
current-targets fsm (some i) s sound e =
    get_elem?-AllTargets (length fsm.states) fsm.states i sound.targets e

-- `OnReceived` on a sound machine does not fail and leaves a sound machine.
pub on_received-IsSound :
    (fsm : FiniteStateMachine) (msg_type : ℕ) → IsSound fsm → SoundResult (on_received fsm msg_type)
unfolding on_received current
on_received-IsSound fsm msg_type sound = split (current fsm) refl
  where
    step :
        (s : State) (t : Option ℕ)
        → current fsm ≡ some s
        → lookup msg_type s.transitions ≡ t
        → SoundResult (on_received fsm msg_type)
    step s none e h = rw (e, h, on_received) sound
    step s (some i) e h =
        rw (e, h, on_received)
          (record {
            points =
                lookup-Below (length fsm.states) msg_type s.transitions
                  (current-targets fsm fsm.current_state s sound e) h;
            targets = sound.targets;
            names = sound.names;
          })

    split : (o : Option State) → current fsm ≡ o → SoundResult (on_received fsm msg_type)
    split none e = absurd (current-found fsm fsm.current_state sound.points e)
    split (some s) e = step s (lookup msg_type s.transitions) e refl

-- `MoveToNextState` leaves a sound machine sound, at its last state too.
move_to_next_state-IsSound :
    (fsm : FiniteStateMachine) → IsSound fsm → IsSound (move_to_next_state fsm).0
unfolding move_to_next_state move_from
move_to_next_state-IsSound fsm sound = go (length fsm.states - 1) 0 (omega arith)
  where
    go : (rounds i : ℕ) → rounds + i ≤ length fsm.states - 1 → IsSound (move_from fsm rounds i).0
    go zero i h = sound
    go (suc rounds) i h =
        if-cases (λ (r : FiniteStateMachine × Bool). IsSound r.0) (points_to fsm.current_state i)
          (λ t. record { points = omega arith; targets = sound.targets; names = sound.names })
          (λ f. go rounds (i + 1) (omega arith))

-- `IsAllowed` answers for every message type on a sound machine.
pub is_allowed-IsSound :
    (fsm : FiniteStateMachine) (msg_type : ℕ) → IsSound fsm → is_allowed fsm msg_type ≢ none
unfolding is_allowed current
is_allowed-IsSound fsm msg_type sound e =
    ground (arith, current-found fsm fsm.current_state sound.points)
