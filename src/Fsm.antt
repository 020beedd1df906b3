-- ===== src/Fsm.antt =====
-- The configurable state machine of a connection (pkg/fsm/fsm.go). A lock makes each method one
-- step. Pointers to states are indices into `States`, which is never changed after `Load`.
pub mod Moves
pub mod Sound
use channeld.Base.{
  ℕ, zero, suc, ◌+◌, ◌-◌, Bool, true, false, Option, none, some, List, [], ◌∷◌, ltb, leb, ◌==◌,
  if◌then◌else◌, lookup, insert, length, get_elem?, set, is_some,
}
use channeld.Base.Strings.{split, trim, parse_uint32, lookup_str, insert_str}

pub record State : Type 0 where
  pub name : List ℕ
  pub msg_type_whitelist : List ℕ
  pub msg_type_blacklist : List ℕ
  pub allowed_msg_types : List (ℕ × Bool)
  pub transitions : List (ℕ × ℕ)

pub record StateTransition : Type 0 where
  pub from_state : List ℕ
  pub to_state : List ℕ
  pub msg_type : ℕ

pub record FiniteStateMachine : Type 0 where
  pub init_state : Option (List ℕ)
  pub states : List State
  pub transitions : List StateTransition
  pub current_state : Option ℕ
  pub state_name_map : List (List ℕ × ℕ)

-- `for i := fromType; i <= toType; i += 1 { f(uint32(i)) }` on the map of allowed types.
pub mark_range : Bool → ℕ → ℕ → List (ℕ × Bool) → List (ℕ × Bool)
unfolding insert
mark_range b zero i m = m
mark_range b (suc rounds) i m = mark_range b rounds (i + 1) (insert i b m)

-- One segment between commas. Of `a-b-c` the part after the second dash is not looked at.
pub mark_segment : Bool → List (List ℕ) → List (ℕ × Bool) → List (ℕ × Bool)
unfolding mark_range insert
mark_segment b [] m = m
mark_segment b (t ∷ []) m = elim (parse_uint32 t) [ none ↦ m | some n ↦ insert n b m ]
mark_segment b (from ∷ to ∷ rest) m = elim (parse_uint32 from) [
  | none ↦ m
  | some i ↦ elim (parse_uint32 to) [ none ↦ m | some j ↦ mark_range b (j + 1 - i) i m ]
]

pub mark_segments : Bool → List (List ℕ) → List (ℕ × Bool) → List (ℕ × Bool)
unfolding mark_segment
mark_segments b [] m = m
mark_segments b (seg ∷ segs) m =
    mark_segments b segs (mark_segment b (split b'-' (trim b' ' seg)) m)

-- `parseMsgTypes` with the callback that writes `b` into the map.
unfoldable pub parse_msg_types : Bool → List ℕ → List (ℕ × Bool) → List (ℕ × Bool)
unfolding mark_segments
parse_msg_types b [] m = m
parse_msg_types b (c ∷ s) m = mark_segments b (split b',' (c ∷ s)) m

-- The loop of `Load` over the states.
pub prepare_state : State → State
unfolding parse_msg_types
prepare_state s = record s {
  allowed_msg_types =
      parse_msg_types false s.msg_type_blacklist (parse_msg_types true s.msg_type_whitelist []);
  transitions = [];
}

pub prepare_states : List State → List State
unfolding prepare_state
prepare_states [] = []
prepare_states (s ∷ ss) = prepare_state s ∷ prepare_states ss

pub name_states : ℕ → List State → List (List ℕ × ℕ) → List (List ℕ × ℕ)
unfolding insert_str
name_states i [] m = m
name_states i (s ∷ ss) m = name_states (i + 1) ss (insert_str s.name i m)

abbrev with_transition : ℕ → ℕ → State → State
with_transition msg_type to s = record s { transitions = insert msg_type to s.transitions }

abbrev place : ℕ → ℕ → ℕ → List State → Option State → List State
place from msg_type to states none = states
place from msg_type to states (some s) = set states from (with_transition msg_type to s)

pub set_transition : ℕ → ℕ → ℕ → List State → List State
set_transition from msg_type to states = place from msg_type to states (get_elem? states from)

abbrev connect : ℕ → List State → Option ℕ → Option ℕ → List State
connect msg_type states none to = states
connect msg_type states (some from) none = states
connect msg_type states (some from) (some to) = set_transition from msg_type to states

-- The loop of `Load` over the transitions: one that names an unknown state is passed over.
pub add_transitions : List (List ℕ × ℕ) → List StateTransition → List State → List State
unfolding set_transition lookup_str insert
add_transitions names [] states = states
add_transitions names (t ∷ ts) states =
    add_transitions names ts
      (connect t.msg_type states (lookup_str t.from_state names) (lookup_str t.to_state names))

abbrev first_state : List State → Option ℕ
first_state [] = none
first_state (s ∷ ss) = some 0

-- `ChangeState`: the machine, and whether the name is known (no error).
unfoldable pub change_state : FiniteStateMachine → List ℕ → FiniteStateMachine × Bool
unfolding lookup_str
change_state fsm name = elim (lookup_str name fsm.state_name_map) [
  | none ↦ (fsm, false)
  | some i ↦ (record fsm { current_state = some i }, true)
]

-- `Load` of a machine that was read from its file, and whether there was no error.
unfoldable pub load : FiniteStateMachine → FiniteStateMachine × Bool
unfolding prepare_states name_states add_transitions change_state
load config =
    let names = name_states 0 config.states [] in
    let fsm : FiniteStateMachine = record config {
      current_state = first_state config.states;
      state_name_map = names;
      states = add_transitions names config.transitions (prepare_states config.states);
    } in
    elim config.init_state [ none ↦ (fsm, true) | some name ↦ change_state fsm name ]

-- The state that a pointer points to; `none` where Go would dereference nil.
unfoldable pub state_at : FiniteStateMachine → Option ℕ → Option State
state_at fsm none = none
state_at fsm (some i) = get_elem? fsm.states i

-- `CurrentState`.
unfoldable pub current : FiniteStateMachine → Option State
unfolding state_at
current fsm = state_at fsm fsm.current_state

abbrev pub or_false : Option Bool → Bool
or_false none = false
or_false (some b) = b

-- `IsAllowed`; `none` is the panic of a machine that has no state.
unfoldable pub is_allowed : FiniteStateMachine → ℕ → Option Bool
unfolding current lookup
is_allowed fsm msg_type = elim (current fsm) [
  | none ↦ none
  | some s ↦ some (or_false (lookup msg_type s.allowed_msg_types))
]

-- `OnReceived`; `none` as above.
unfoldable pub on_received : FiniteStateMachine → ℕ → Option FiniteStateMachine
unfolding current lookup
on_received fsm msg_type = elim (current fsm) [
  | none ↦ none
  | some s ↦ elim (lookup msg_type s.transitions) [
    | none ↦ some fsm
    | some i ↦ some (record fsm { current_state = some i })
  ]
]

abbrev points_to : Option ℕ → ℕ → Bool
points_to none i = false
points_to (some j) i = j == i

-- The loop of `MoveToNextState`, with the rounds left and the index.
unfoldable pub move_from : FiniteStateMachine → ℕ → ℕ → FiniteStateMachine × Bool
move_from fsm zero i = (fsm, false)
move_from fsm (suc rounds) i =
    let rest = move_from fsm rounds (i + 1) in
    if points_to fsm.current_state i
    then (record fsm { current_state = some (i + 1) }, true)
    else rest

unfoldable pub move_to_next_state : FiniteStateMachine → FiniteStateMachine × Bool
unfolding move_from
move_to_next_state fsm = move_from fsm (length fsm.states - 1) 0
