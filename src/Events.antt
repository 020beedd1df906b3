-- ===== src/Events.antt =====
-- The listeners of events (pkg/channeld/event.go). The state of the process records the broadcasts
-- instead; this is what a broadcast does with the listeners. Each method is one step, by its lock.
pub mod Sweep
pub mod Panics
pub mod Calls
use channeld.Base.{
  ℕ, zero, suc, ◌+◌, ◌-◌, Bool, true, false, ◌&&◌, Option, none, some, List, [], ◌∷◌, ◌++◌, ◌==◌,
  opt_eq, ltb, leb, if◌then◌else◌, map,
}

-- `eventHandler`, with the function and the owner by numbers; the owner may be nil.
pub record EventHandler : Type 0 where
  pub owner : Option ℕ
  pub handler_func : ℕ
  pub trigger_once : Bool

-- The slice `handlers`: its length, and the array behind it, which goes on.
pub record Handlers : Type 0 where
  pub len : ℕ
  pub at : ℕ → EventHandler

-- `e.handlers[from:]` as a list; `n` is the number of elements left.
unfoldable pub handlers_from : (ℕ → EventHandler) → (n from : ℕ) → List EventHandler
handlers_from at zero from = []
handlers_from at (suc n) from = at from ∷ handlers_from at n (suc from)

-- `append` of one element.
unfoldable pub append : Handlers → EventHandler → Handlers
append s h = record { len = suc s.len; at = λ k. if k == s.len then h else s.at k }

-- `ListenFor`, `Listen` and `ListenOnce`, which `Wait` calls with a function that fills a channel.
unfoldable pub listen_for : Handlers → Option ℕ → ℕ → Handlers
unfolding append
listen_for s o f = append s (record { owner = o; handler_func = f; trigger_once = false })

unfoldable pub listen : Handlers → ℕ → Handlers
unfolding listen_for
listen s f = listen_for s none f

unfoldable pub listen_once : Handlers → ℕ → Handlers
unfolding append
listen_once s f = append s (record { owner = none; handler_func = f; trigger_once = true })

-- `append(e.handlers[:i], e.handlers[i+1:]...)`, which copies within the array. The second slice
-- panics where `i` is not below the length.
unfoldable pub remove_at : Handlers → ℕ → Option Handlers
remove_at s i =
    if ltb i s.len
    then some (record {
      len = s.len - 1;
      at = λ k. if leb i k && ltb (k + 1) s.len then s.at (k + 1) else s.at k;
    })
    else none

-- What a loop over the slice ends with: the elements that it came to, and the slice.
pub data Swept : Type 0 where
  swept : List EventHandler → Handlers → Swept
  panic : List EventHandler → Swept

abbrev pub visiting : EventHandler → Swept → Swept
visiting h (swept hs s) = swept (h ∷ hs) s
visiting h (panic hs) = panic (h ∷ hs)

-- `for i, handler := range e.handlers` with a removal in the body. The range keeps the length that
-- the slice had at first, and reads the array, which the removals change.
unfoldable pub sweep : (EventHandler → Bool) → (n i : ℕ) → Handlers → Swept
unfolding remove_at
sweep p zero i s = swept [] s
sweep p (suc n) i s =
    let h = s.at i in
    visiting h (
      if p h
      then elim (remove_at s i) [ none ↦ panic [] | some s' ↦ sweep p n (suc i) s' ]
      else sweep p n (suc i) s)

-- `Broadcast`: the elements that the loop comes to are called.
unfoldable pub broadcast_handlers : Handlers → Swept
unfolding sweep
broadcast_handlers s = sweep (λ h. h.trigger_once) s.len 0 s

-- `UnlistenFor`.
unfoldable pub unlisten_for : Handlers → Option ℕ → Swept
unfolding sweep
unlisten_for s o = sweep (λ h. opt_eq h.owner o) s.len 0 s
