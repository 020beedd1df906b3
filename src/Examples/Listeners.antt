-- ===== src/Examples/Listeners.antt =====
-- Examples of the listeners of an event.
use channeld.Base.{◌≡◌, refl, true, false, none, some, List, arith}
use channeld.Events.{EventHandler, Handlers, swept, broadcast_handlers, unlisten_for, listen_for}
use channeld.Events.Calls.{listeners, unlisten_for-listen_for}
use channeld.Events.Panics.{panics, sweep_twice-panics}

abbrev no_handler : EventHandler
no_handler = record { owner = none; handler_func = 0; trigger_once = false }

abbrev one_listener : Handlers
one_listener = record {
  len = 1;
  at = λ k. record { owner = some 7; handler_func = 5; trigger_once = false };
}

-- Two listeners of `Wait`.
abbrev waiting : Handlers
waiting = record {
  len = 2;
  at = λ k. record { owner = none; handler_func = k; trigger_once = true };
}

sweep_twice-panics_example :
    (true ≡ true → true ≡ true → panics (broadcast_handlers waiting) ≡ true)
    × (true ≡ true → true ≡ true → panics (unlisten_for waiting none) ≡ true)
sweep_twice-panics_example = sweep_twice-panics waiting none 0 1 refl (omega arith)

unlisten_for-listen_for_example :
    (visited : List EventHandler) × (s' : Handlers) × (unlisten_for
        (listen_for one_listener (some 8) 6)
        (some 8)
      ≡ swept visited s')
    × (listeners s' ≡ listeners one_listener)
unlisten_for-listen_for_example = unlisten_for-listen_for one_listener (some 8) 6 (λ k inside. refl)
