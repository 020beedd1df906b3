-- ===== src/Events/Sweep.antt =====
-- The loops of `Broadcast` and `UnlistenFor` (pkg/channeld/event.go).
use channeld.Base.{
  ℕ, zero, suc, ◌+◌, ◌-◌, ◌≤◌, ◌<◌, ◌≡◌, refl, ◌∙◌, ap, Bool, true, false, [], ◌∷◌, ◌++◌, ◌==◌, ltb,
  leb, ◌&&◌, if◌then◌else◌, arith,
}
use channeld.Events.{
  EventHandler, Handlers, handlers_from, sweep, swept, panic, remove_at, visiting,
}

-- The slice after the removal of an element.
abbrev pub without : Handlers → ℕ → Handlers
without s j = record {
  len = s.len - 1;
  at = λ k. if leb j k && ltb (k + 1) s.len then s.at (k + 1) else s.at k;
}

-- One round of the loop.
module _ (p : EventHandler → Bool) (n i : ℕ) (s : Handlers) where
  pub sweep-keep :
      p (s.at i) ≡ false → sweep p (suc n) i s ≡ visiting (s.at i) (sweep p n (suc i) s)
  unfolding sweep
  sweep-keep stays = rw stays refl

  pub sweep-remove :
      p (s.at i) ≡ true
      → i < s.len
      → sweep p (suc n) i s ≡ visiting (s.at i) (sweep p n (suc i) (without s i))
  unfolding sweep remove_at
  sweep-remove goes inside = rw (goes, here) refl
    where
      here : ltb i s.len ≡ true
      here = ground (arith, inside)

  pub sweep-beyond : p (s.at i) ≡ true → s.len ≤ i → sweep p (suc n) i s ≡ panic (s.at i ∷ [])
  unfolding sweep remove_at
  sweep-beyond goes outside = rw (goes, there) refl
    where
      there : ltb i s.len ≡ false
      there = ground (arith, outside)

-- Where nothing is to be removed, the loop comes to all elements.
pub sweep-kept :
    (p : EventHandler → Bool) (n i : ℕ) (s : Handlers)
    → ((k : ℕ) → i ≤ k → k < i + n → p (s.at k) ≡ false)
    → sweep p n i s ≡ swept (handlers_from s.at n i) s
unfolding sweep handlers_from
sweep-kept p zero i s keep = refl
sweep-kept p (suc n) i s keep =
    sweep-keep p n i s (keep i (omega arith) (omega arith))
    ∙ ap (visiting (s.at i))
        (sweep-kept p n (suc i) s (λ k low high. keep k (omega (arith, low)) (omega (arith, high))))

-- Where one element alone is to be removed, it goes, and the loop comes next to what then stands
-- behind its place.
pub sweep-one :
    (p : EventHandler → Bool) (m n t i j : ℕ) (s : Handlers)
    → t ≡ m + suc n
    → j ≡ i + m
    → i + t ≡ s.len
    → ((k : ℕ) → k < s.len → p (s.at k) ≡ (k == j))
    → sweep p t i s
      ≡ swept
          (handlers_from s.at (suc m) i ++ handlers_from (without s j).at n (suc j))
          (without s j)
unfolding handlers_from
sweep-one p m n zero i j s total place all one = ground (arith, total)
sweep-one p zero n (suc t) i j s total place all one =
    let after =
      sweep-kept p t (suc i) (without s i)
        (λ k low high. ground (arith, low, high, all, place, one k, one (k + 1))) in
    let here = sweep-remove p t i s (ground (arith, all, place, one i)) (omega (arith, all)) in
    let rest : t ≡ n = omega (arith, total) in
    let found : i ≡ j = omega (arith, place) in
    here ∙ ap (visiting (s.at i)) after ∙ rw (rest, found) refl
sweep-one p (suc m) n (suc t) i j s total place all one =
    sweep-keep p t i s (ground (arith, all, place, one i))
    ∙ ap (visiting (s.at i)) (
        sweep-one p m n t (suc i) j s (omega (arith, total)) (omega (arith, place))
          (omega (arith, all)) one)
