-- ===== src/Events/Calls.antt =====
-- Which listeners a broadcast calls, and which stay (pkg/channeld/event.go).
use channeld.Base.{
  ℕ, zero, suc, ◌+◌, ◌-◌, ◌<◌, ◌≡◌, refl, ◌∙◌, sym, ap, true, false, Option, none, some, List, [],
  ◌∷◌, ◌++◌, ◌==◌, opt_eq, arith,
}
use channeld.Events.{
  EventHandler, Handlers, handlers_from, swept, listen_for, broadcast_handlers, unlisten_for,
}
use channeld.Events.Sweep.{sweep-kept, sweep-one, without}

handlers_from-cong :
    (f g : ℕ → EventHandler) (n i j : ℕ)
    → ((k : ℕ) → k < n → f (i + k) ≡ g (j + k))
    → handlers_from f n i ≡ handlers_from g n j
unfolding handlers_from
handlers_from-cong f g zero i j same = refl
handlers_from-cong f g (suc n) i j same =
    let i0 : i ≡ i + 0 = omega arith in
    let j0 : j + 0 ≡ j = omega arith in
    let first : f i ≡ g j = ap f i0 ∙ same 0 (omega arith) ∙ ap g j0 in
    ap (λ h. h ∷ handlers_from f n (suc i)) first
    ∙ ap (λ hs. g j ∷ hs)
        (handlers_from-cong f g n (suc i) (suc j) (λ k low.
          let here : i + suc k ≡ suc i + k = omega arith in
          let there : j + suc k ≡ suc j + k = omega arith in
          sym (ap f here) ∙ same (suc k) (omega (arith, low)) ∙ ap g there))

handlers_from-append :
    (at : ℕ → EventHandler) (m n i j t : ℕ)
    → t ≡ m + n
    → j ≡ i + m
    → handlers_from at t i ≡ handlers_from at m i ++ handlers_from at n j
unfolding handlers_from
handlers_from-append at zero n i j t total place =
    let all : t ≡ n = omega (arith, total) in
    let start : i ≡ j = omega (arith, place) in rw (all, start) refl
handlers_from-append at (suc m) n i j zero total place = ground (arith, total)
handlers_from-append at (suc m) n i j (suc t) total place =
    ap (λ hs. at i ∷ hs)
      (handlers_from-append at m n (suc i) j t (omega (arith, total)) (omega (arith, place)))

-- The elements of a slice.
abbrev pub listeners : Handlers → List EventHandler
listeners s = handlers_from s.at s.len 0

abbrev pub listener : Option ℕ → ℕ → EventHandler
listener o f = record { owner = o; handler_func = f; trigger_once = false }

listeners-listen_for :
    (s : Handlers) (o : Option ℕ) (f : ℕ)
    → listeners (listen_for s o f) ≡ listeners s ++ listener o f ∷ []
unfolding listen_for handlers_from
listeners-listen_for s o f =
    handlers_from-append (listen_for s o f).at s.len 1 0 s.len (suc s.len) (omega arith)
      (omega arith)
    ∙ ap (λ hs. hs ++ handlers_from (listen_for s o f).at 1 s.len)
        (handlers_from-cong (listen_for s o f).at s.at s.len 0 0 (λ k low. ground (arith, low)))
    ∙ ap (λ h. listeners s ++ h ∷ []) (ground arith)

-- Where no listener is to be called once, `Broadcast` calls all of them in the order in which they came,
-- one that `ListenFor` has just added as the last, and they all stay.
broadcast-listen_for :
    (s : Handlers) (o : Option ℕ) (f : ℕ)
    → ((k : ℕ) → k < s.len → (s.at k).trigger_once ≡ false)
    → broadcast_handlers (listen_for s o f)
      ≡ swept (listeners s ++ listener o f ∷ []) (listen_for s o f)
unfolding broadcast_handlers listen_for
broadcast-listen_for s o f always =
    sweep-kept (λ h. h.trigger_once) (suc s.len) 0 (listen_for s o f)
      (λ k low high. ground (arith, high, always k))
    ∙ ap (λ hs. swept hs (listen_for s o f)) (listeners-listen_for s o f)

opt_eq_refl : (o : Option ℕ) → opt_eq o o ≡ true
opt_eq_refl none = refl
opt_eq_refl (some x) = ground arith

-- `UnlistenFor` takes back what `ListenFor` has added for an owner that had no listener before: the
-- listeners are again those of before, in their order.
pub unlisten_for-listen_for :
    (s : Handlers) (o : Option ℕ) (f : ℕ)
    → ((k : ℕ) → k < s.len → opt_eq (s.at k).owner o ≡ false)
    → (visited : List EventHandler) × (s' : Handlers) × (unlisten_for (listen_for s o f) o
        ≡ swept visited s')
      × (listeners s' ≡ listeners s)
unfolding unlisten_for listen_for
unlisten_for-listen_for s o f others =
    let s' = listen_for s o f in
    let shorter : suc s.len - 1 ≡ s.len = omega arith in
    (
      handlers_from s'.at (suc s.len) 0 ++ handlers_from (without s' s.len).at 0 (suc s.len),
      without s' s.len,
      sweep-one (λ h. opt_eq h.owner o) s.len 0 (suc s.len) 0 s.len s' (omega arith) (omega arith)
          (omega arith) (λ k inside. ground (arith, inside, others k, opt_eq_refl o)),
      ap (λ n. handlers_from (without s' s.len).at n 0) shorter
          ∙ handlers_from-cong (without s' s.len).at s.at s.len 0 0 (λ k low. ground (arith, low)),
    )

-- A broadcast to a single listener that is to be called once, among others that stay: those before
-- it and itself are called, the next one is left out, and the last one is called twice. The listener
-- is gone then.
broadcast_handlers-skips :
    (s : Handlers) (j n : ℕ)
    → s.len ≡ suc (suc (j + n))
    → ((k : ℕ) → k < s.len → (s.at k).trigger_once ≡ (k == j))
    → (s' : Handlers) × (broadcast_handlers s
        ≡ swept
            (handlers_from s.at (suc j) 0
              ++ (handlers_from s.at n (suc (suc j)) ++ s.at (suc (j + n)) ∷ []))
            s')
      × (listeners s' ≡ handlers_from s.at j 0 ++ handlers_from s.at (suc n) (suc j))
unfolding broadcast_handlers handlers_from
broadcast_handlers-skips s j n all one =
    let w = without s j in
    let last : handlers_from w.at (suc n) (suc j)
        ≡ handlers_from s.at n (suc (suc j)) ++ s.at (suc (j + n)) ∷ [] =
      handlers_from-append w.at n 1 (suc j) (suc (j + n)) (suc n) (omega arith) (omega arith)
      ∙ ap (λ hs. hs ++ handlers_from w.at 1 (suc (j + n)))
          (handlers_from-cong w.at s.at n (suc j) (suc (suc j)) (λ k low. ground (arith, low, all)))
      ∙ ap (λ h. handlers_from s.at n (suc (suc j)) ++ h ∷ []) (ground (arith, all)) in
    (
      w,
      sweep-one (λ h. h.trigger_once) j (suc n) s.len 0 j s (omega (arith, all)) (omega arith)
            (omega arith) one
          ∙ ap (λ hs. swept (handlers_from s.at (suc j) 0 ++ hs) w) last,
      handlers_from-append w.at j (suc n) 0 j (s.len - 1) (omega (arith, all)) (omega arith)
          ∙ ap (λ hs. hs ++ handlers_from w.at (suc n) j)
              (handlers_from-cong w.at s.at j 0 0 (λ k low. ground (arith, low)))
          ∙ ap (λ hs. handlers_from s.at j 0 ++ hs)
              (handlers_from-cong w.at s.at (suc n) j (suc j) (λ k low. ground (arith, low, all))),
    )
