-- ===== src/Events/Panics.antt =====
-- When the loops of `Broadcast` and `UnlistenFor` panic (pkg/channeld/event.go).
use channeld.Base.{
  ℕ, zero, suc, ◌+◌, ◌≤◌, ◌<◌, ◌≡◌, refl, ◌∙◌, ap, Bool, true, false, Option, opt_eq, ltb, arith,
  Bool-cases, inl, inr,
}
use channeld.Events.{
  EventHandler, Handlers, sweep, Swept, swept, panic, broadcast_handlers, unlisten_for, visiting,
}
use channeld.Events.Sweep.{without, sweep-keep, sweep-remove, sweep-beyond}

abbrev pub panics : Swept → Bool
panics (swept hs s) = false
panics (panic hs) = true

panics-visiting : (h : EventHandler) (r : Swept) → panics (visiting h r) ≡ panics r
panics-visiting h (swept hs s) = refl
panics-visiting h (panic hs) = refl

module _ (p : EventHandler → Bool) where
  -- After a removal, the last element of the array is reached beyond the slice.
  sweep-late :
      (n i l : ℕ) (s : Handlers)
      → l ≡ i + n
      → s.len ≤ l
      → p (s.at l) ≡ true
      → panics (sweep p (suc n) i s) ≡ true
  sweep-late zero i l s end short last =
      ap panics (sweep-beyond p 0 i s (ground (arith, last, end)) (omega (arith, short, end)))
  sweep-late (suc n) i l s end short last = elim (Bool-cases (p (s.at i))) [
    | inr kept ↦
        ap panics (sweep-keep p (suc n) i s kept)
        ∙ panics-visiting (s.at i) (sweep p (suc n) (suc i) s)
        ∙ sweep-late n (suc i) l s (omega (arith, end)) short last
    | inl removed ↦ elim (Bool-cases (ltb i s.len)) [
      | inl inside ↦
          ap panics (sweep-remove p (suc n) i s removed (ground (arith, inside)))
          ∙ panics-visiting (s.at i) (sweep p (suc n) (suc i) (without s i))
          ∙ sweep-late n (suc i) l (without s i) (omega (arith, end)) (omega (arith, short))
              (ground (arith, last, short))
      | inr outside ↦ ap panics (sweep-beyond p (suc n) i s removed (ground (arith, outside)))
    ]
  ]

  sweep-panics :
      (n i j l : ℕ) (s : Handlers)
      → s.len ≡ suc l
      → l ≡ i + n
      → i ≤ j
      → j < l
      → p (s.at j) ≡ true
      → p (s.at l) ≡ true
      → panics (sweep p (suc n) i s) ≡ true
  sweep-panics zero i j l s all end low high one last = ground (arith, low, high, end)
  sweep-panics (suc n) i j l s all end low high one last = elim (Bool-cases (p (s.at i))) [
    | inl now ↦
        ap panics (sweep-remove p (suc n) i s now (omega (arith, all, end)))
        ∙ panics-visiting (s.at i) (sweep p (suc n) (suc i) (without s i))
        ∙ sweep-late n (suc i) l (without s i) (omega (arith, end)) (omega (arith, all))
            (ground (arith, last, all))
    | inr later ↦
        ap panics (sweep-keep p (suc n) i s later)
        ∙ panics-visiting (s.at i) (sweep p (suc n) (suc i) s)
        ∙ sweep-panics n (suc i) j l s all (omega (arith, end)) (ground (arith, low, one, later))
            high one last
  ]

-- Where two listeners are to be removed, of which one is the last of the slice, `Broadcast` and
-- `UnlistenFor` panic: the first removal moves the end of the slice below the index at which the
-- range comes to the last element. So two calls of `Wait` before a broadcast are enough.
pub sweep_twice-panics :
    (s : Handlers) (o : Option ℕ) (j l : ℕ)
    → s.len ≡ suc l
    → j < l
    → ((s.at j).trigger_once ≡ true
        → (s.at l).trigger_once ≡ true
        → panics (broadcast_handlers s) ≡ true)
      × (opt_eq (s.at j).owner o ≡ true
          → opt_eq (s.at l).owner o ≡ true
          → panics (unlisten_for s o) ≡ true)
unfolding broadcast_handlers unlisten_for
sweep_twice-panics s o j l all before = (
  λ one last.
      ap (λ n. panics (sweep (λ h. h.trigger_once) n 0 s)) all
      ∙ sweep-panics (λ h. h.trigger_once) l 0 j l s all (omega arith) (omega arith) before one
          last,
  λ one last.
      ap (λ n. panics (sweep (λ h. opt_eq h.owner o) n 0 s)) all
      ∙ sweep-panics (λ h. opt_eq h.owner o) l 0 j l s all (omega arith) (omega arith) before one
          last,
)
