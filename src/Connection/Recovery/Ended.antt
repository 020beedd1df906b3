-- ===== src/Connection/Recovery/Ended.antt =====
-- Which recoveries a tick ends (pkg/channeld/connection_recovery.go).
use channeld.Base.{
  ℕ, ◌≡◌, refl, ap, ◌∙◌, Bool, false, ◌&&◌, ◌||◌, Option, none, some, List, [], ◌∷◌, ◌==◌, ==_iff,
  if◌then◌else◌, lookup, lookup-remove, is_some, arith, Bool-cases, inl, inr, Option-cases,
}
use channeld.World.Types.{ConnRef, HandleRef, World, Env}
use channeld.World.Access.{send, set_conn}
use channeld.Connection.{is_time_out}
use channeld.Connection.Recovery.{
  tick_handle, tick_handles, tick_connection_recovery, is_over, end_for,
}
use channeld.Channel.Broadcast.{Distinct}

-- A handle that the tick ends: too much time has passed since the old connection was lost, or since
-- the new one has come.
abbrev pub is_ended : Env → World → HandleRef → Bool
is_ended env w h = is_time_out env w h || (is_some (w.handles h).new_conn && is_over w h)

send-recover_handles :
    (env : Env) (w : World) (c : ConnRef)
    → let w' = end_for env w c in
      (w'.recover_handles ≡ w.recover_handles) × (w'.handles ≡ w.handles) × (w'.now ≡ w.now)
unfolding send set_conn
send-recover_handles env w c = ground arith

-- A step drops the handle if it is ended, and changes no other.
tick_handle-lookup :
    (env : Env) (w : World) (key k : ℕ) (h : HandleRef)
    → let w' = tick_handle env w key h in
      (lookup k w'.recover_handles
        ≡ (if is_ended env w h && key == k then none else lookup k w.recover_handles))
      × (w'.handles ≡ w.handles)
      × (w'.now ≡ w.now)
unfolding tick_handle
tick_handle-lookup env w key k h = elim (Bool-cases (is_time_out env w h)) [
  | inl late ↦ ground (arith, late, lookup-remove key k w.recover_handles)
  | inr early ↦ elim (Option-cases (w.handles h).new_conn) [
    | inl nobody ↦ ground (arith, early, nobody)
    | inr (c, came) ↦ ground (
      arith,
      early,
      came,
      send-recover_handles env w c,
      lookup-remove key k (end_for env w c).recover_handles,
    )
  ]
]

is_ended-same :
    (env : Env) (w w' : World) (h : HandleRef)
    → w'.handles ≡ w.handles
    → w'.now ≡ w.now
    → is_ended env w' h ≡ is_ended env w h
unfolding is_time_out
is_ended-same env w w' h handles now = rw (handles, now) refl

-- Whether one of the entries with the key is ended.
abbrev ended_key : Env → World → ℕ → List (ℕ × HandleRef) → Bool
ended_key env w k [] = false
ended_key env w k ((key, h) ∷ rest) = (is_ended env w h && key == k) || ended_key env w k rest

ended_key-same :
    (env : Env) (w w' : World) (k : ℕ) (entries : List (ℕ × HandleRef))
    → w'.handles ≡ w.handles
    → w'.now ≡ w.now
    → ended_key env w' k entries ≡ ended_key env w k entries
ended_key-same env w w' k [] handles now = refl
ended_key-same env w w' k ((key, h) ∷ rest) handles now =
    rw (is_ended-same env w w' h handles now, ended_key-same env w w' k rest handles now) refl

tick_handles-lookup :
    (env : Env) (k : ℕ) (entries : List (ℕ × HandleRef)) (w : World)
    → lookup k (tick_handles env w entries).recover_handles
      ≡ (if ended_key env w k entries then none else lookup k w.recover_handles)
unfolding tick_handles
tick_handles-lookup env k [] w = refl
tick_handles-lookup env k ((key, h) ∷ rest) w =
    let w' = tick_handle env w key h in
    let step = tick_handle-lookup env w key k h in
    tick_handles-lookup env k rest w'
    ∙ ground (arith, step.0, ended_key-same env w w' k rest step.1 step.2)

-- Where no key occurs twice, as in a Go map, the entry of the key decides.
ended_key-lookup :
    (env : Env) (w : World) (k : ℕ) (entries : List (ℕ × HandleRef))
    → Distinct entries
    → ended_key env w k entries
      ≡ elim (lookup k entries) as (λ o. Bool) [ none ↦ false | some h ↦ is_ended env w h ]
unfolding lookup
ended_key-lookup env w k [] distinct = refl
ended_key-lookup env w k ((key, h) ∷ rest) distinct = elim (Bool-cases (key == k)) [
  | inr other ↦ ground (arith, other, ended_key-lookup env w k rest distinct.1)
  | inl same ↦
      let gone : lookup k rest ≡ none =
        ground (arith, distinct.0, ap (λ (i : ℕ). lookup i rest) ((==_iff key k).0 same)) in
      ground (arith, same, gone, ended_key-lookup env w k rest distinct.1)
]

-- A round of `tickConnectionRecovery` forgets a handle just if it is timed out, or a new connection
-- has come and its time for the recovery is over; every other handle stays under its token.
pub tick_connection_recovery-lookup :
    (env : Env) (w : World) (k : ℕ)
    → Distinct w.recover_handles
    → lookup k (tick_connection_recovery env w).recover_handles
      ≡ elim (lookup k w.recover_handles) as (λ o. Option HandleRef) [
        | none ↦ none
        | some h ↦ if is_ended env w h then none else some h
      ]
unfolding tick_connection_recovery
tick_connection_recovery-lookup env w k distinct =
    tick_handles-lookup env k w.recover_handles w
    ∙ ground (arith, ended_key-lookup env w k w.recover_handles distinct)
