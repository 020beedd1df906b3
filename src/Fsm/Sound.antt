-- ===== src/Fsm/Sound.antt =====
-- The pointers of a loaded machine (pkg/fsm/fsm.go).
use channeld.Base.{
  ℕ, zero, suc, ◌+◌, ◌≤◌, ◌<◌, ◌≡◌, refl, ap, sym, subst, ◌∙◌, ◌≢◌, Option, none, some, List, [],
  ◌∷◌, arith, lookup, insert, length, get_elem?, set,
}
use channeld.Base.Strings.{lookup_str, insert_str}
use channeld.Fsm.{
  State, StateTransition, FiniteStateMachine, load, change_state, prepare_states, name_states,
  add_transitions, set_transition, place, connect, with_transition, first_state,
}

-- The values of a map lie below `n`.
abbrev pub Below {ℓ} : {K : Type ℓ} → ℕ → List (K × ℕ) → Type 0
Below n [] = Unit {0}
Below n ((k, i) ∷ m) = (i < n) × Below n m

-- Every transition of every state leads to an index below `n`.
abbrev pub AllTargets : ℕ → List State → Type 0
AllTargets n [] = Unit {0}
AllTargets n (s ∷ ss) = Below n s.transitions × AllTargets n ss

abbrev pub PointsBelow : ℕ → Option ℕ → Type 0
PointsBelow n none = ⊥
PointsBelow n (some i) = i < n

pub record IsSound (fsm : FiniteStateMachine) : Type 0 where
  pub points : PointsBelow (length fsm.states) fsm.current_state
  pub targets : AllTargets (length fsm.states) fsm.states
  pub names : Below (length fsm.states) fsm.state_name_map

pub lookup-Below : (n k : ℕ) (m : List (ℕ × ℕ)) {i : ℕ} → Below n m → lookup k m ≡ some i → i < n
unfolding lookup
lookup-Below n k [] below e = ground arith
lookup-Below n k ((j, v) ∷ m) {i} below e = ground (arith, lookup-Below n k m {i = i} below.1)

insert-Below : (n k v : ℕ) (m : List (ℕ × ℕ)) → v < n → Below n m → Below n (insert k v m)
unfolding insert
insert-Below n k v [] h below = (h, tt)
insert-Below n k v ((j, w) ∷ m) h below = ground (arith, insert-Below n k v m h below.1)

lookup_str-Below :
    (n : ℕ) (k : List ℕ) (m : List (List ℕ × ℕ)) {i : ℕ}
    → Below n m
    → lookup_str k m ≡ some i
    → i < n
unfolding lookup_str
lookup_str-Below n k [] below e = ground arith
lookup_str-Below n k ((j, v) ∷ m) {i} below e =
    ground (arith, lookup_str-Below n k m {i = i} below.1)

insert_str-Below :
    (n : ℕ) (k : List ℕ) (v : ℕ) (m : List (List ℕ × ℕ))
    → v < n
    → Below n m
    → Below n (insert_str k v m)
unfolding insert_str
insert_str-Below n k v [] h below = (h, tt)
insert_str-Below n k v ((j, w) ∷ m) h below = ground (arith, insert_str-Below n k v m h below.1)

pub get_elem?-AllTargets :
    (n : ℕ) (ss : List State) (i : ℕ) {s : State}
    → AllTargets n ss
    → get_elem? ss i ≡ some s
    → Below n s.transitions
get_elem?-AllTargets n [] i t e = ground arith
get_elem?-AllTargets n (x ∷ ss) zero {s} t e = ground arith
get_elem?-AllTargets n (x ∷ ss) (suc i) {s} t e = get_elem?-AllTargets n ss i t.1 e

pub get_elem?-below : (ss : List State) (i : ℕ) → i < length ss → get_elem? ss i ≢ none
get_elem?-below [] i h e = absurd (omega arith)
get_elem?-below (x ∷ ss) zero h e = ground arith
get_elem?-below (x ∷ ss) (suc i) h e = get_elem?-below ss i (omega arith) e

set-AllTargets :
    (n : ℕ) (ss : List State) (i : ℕ) (s : State)
    → AllTargets n ss
    → Below n s.transitions
    → AllTargets n (set ss i s) × (length (set ss i s) ≡ length ss)
set-AllTargets n [] i s t b = (tt, refl)
set-AllTargets n (x ∷ ss) zero s t b = ((b, t.1), refl)
set-AllTargets n (x ∷ ss) (suc i) s t b =
    let r = set-AllTargets n ss i s t.1 b in ((t.0, r.0), ap suc r.1)

set_transition-AllTargets :
    (n from msg_type to : ℕ) (ss : List State)
    → to < n
    → AllTargets n ss
    → AllTargets n (set_transition from msg_type to ss)
      × (length (set_transition from msg_type to ss) ≡ length ss)
unfolding set_transition
set_transition-AllTargets n from msg_type to ss h t = split (get_elem? ss from) refl
  where
    split :
        (o : Option State)
        → get_elem? ss from ≡ o
        → AllTargets n (place from msg_type to ss o)
          × (length (place from msg_type to ss o) ≡ length ss)
    split none e = (t, refl)
    split (some s) e =
        set-AllTargets n ss from (with_transition msg_type to s) t
          (insert-Below n msg_type to s.transitions h (get_elem?-AllTargets n ss from t e))

connect-AllTargets :
    (n msg_type : ℕ) (ss : List State) (from to : Option ℕ)
    → ((i : ℕ) → to ≡ some i → i < n)
    → AllTargets n ss
    → AllTargets n (connect msg_type ss from to)
      × (length (connect msg_type ss from to) ≡ length ss)
connect-AllTargets n msg_type ss none to h t = (t, refl)
connect-AllTargets n msg_type ss (some from) none h t = (t, refl)
connect-AllTargets n msg_type ss (some from) (some to) h t =
    set_transition-AllTargets n from msg_type to ss (h to refl) t

add_transitions-AllTargets :
    (n : ℕ) (names : List (List ℕ × ℕ)) (ts : List StateTransition) (ss : List State)
    → Below n names
    → AllTargets n ss
    → AllTargets n (add_transitions names ts ss)
      × (length (add_transitions names ts ss) ≡ length ss)
unfolding add_transitions
add_transitions-AllTargets n names [] ss b t = (t, refl)
add_transitions-AllTargets n names (x ∷ ts) ss b t =
    let from = lookup_str x.from_state names in
    let to = lookup_str x.to_state names in
    let one =
      connect-AllTargets n x.msg_type ss from to (λ i e. lookup_str-Below n x.to_state names b e)
        t in
    let rest = add_transitions-AllTargets n names ts (connect x.msg_type ss from to) b one.0 in
    (rest.0, rest.1 ∙ one.1)

prepare_states-AllTargets :
    (n : ℕ) (ss : List State)
    → AllTargets n (prepare_states ss) × (length (prepare_states ss) ≡ length ss)
unfolding prepare_states
prepare_states-AllTargets n [] = (tt, refl)
prepare_states-AllTargets n (s ∷ ss) =
    let r = prepare_states-AllTargets n ss in ((tt, r.0), ap suc r.1)

name_states-Below :
    (n i : ℕ) (ss : List State) (m : List (List ℕ × ℕ))
    → i + length ss ≤ n
    → Below n m
    → Below n (name_states i ss m)
unfolding name_states
name_states-Below n i [] m h b = b
name_states-Below n i (s ∷ ss) m h b =
    name_states-Below n (i + 1) ss (insert_str s.name i m) (omega arith)
      (insert_str-Below n s.name i m (omega arith) b)

-- `ChangeState` keeps a machine sound, whether it knows the name or not.
change_state-IsSound :
    (fsm : FiniteStateMachine) (name : List ℕ) → IsSound fsm → IsSound (change_state fsm name).0
unfolding change_state
change_state-IsSound fsm name s = split (lookup_str name fsm.state_name_map) refl
  where
    split :
        (o : Option ℕ) → lookup_str name fsm.state_name_map ≡ o → IsSound (change_state fsm name).0
    split none e = rw (e, change_state) s
    split (some i) e =
        rw (e, change_state)
          (record {
            points = lookup_str-Below (length fsm.states) name fsm.state_name_map s.names e;
            targets = s.targets;
            names = s.names;
          })

first_state-PointsBelow : (ss : List State) → ss ≢ [] → PointsBelow (length ss) (first_state ss)
first_state-PointsBelow [] ne = ne refl
first_state-PointsBelow (s ∷ ss) ne = omega arith

-- Reading a machine that has at least one state gives a sound one: the current state, the target
-- of every transition and the state of every name are states of the machine.
load-IsSound : (config : FiniteStateMachine) → config.states ≢ [] → IsSound (load config).0
unfolding load
load-IsSound config some_state = split config.init_state refl
  where
    names : List (List ℕ × ℕ)
    names = name_states 0 config.states []

    below : Below (length config.states) names
    below = name_states-Below (length config.states) 0 config.states [] (omega arith) tt

    prepared :
        AllTargets (length config.states) (prepare_states config.states)
        × (length (prepare_states config.states) ≡ length config.states)
    prepared = prepare_states-AllTargets (length config.states) config.states

    fsm : FiniteStateMachine
    fsm = record config {
      current_state = first_state config.states;
      state_name_map = names;
      states = add_transitions names config.transitions (prepare_states config.states);
    }

    added :
        AllTargets (length config.states) fsm.states
        × (length fsm.states ≡ length (prepare_states config.states))
    added =
        add_transitions-AllTargets (length config.states) names config.transitions
          (prepare_states config.states) below prepared.0

    same : length config.states ≡ length fsm.states
    same = sym (added.1 ∙ prepared.1)

    sound : IsSound fsm
    sound = record {
      points =
          subst (λ k. PointsBelow k (first_state config.states)) same
            (first_state-PointsBelow config.states some_state);
      targets = subst (λ k. AllTargets k fsm.states) same added.0;
      names = subst (λ k. Below k names) same below;
    }

    split : (o : Option (List ℕ)) → config.init_state ≡ o → IsSound (load config).0
    split none e = rw (e, load) sound
    split (some name) e = rw (e, load) (change_state-IsSound fsm name sound)
