-- ===== src/Spatial/Interest/Asking.antt =====
-- The loops that put messages into the queues of channels (pkg/channeld/message_spatial.go).
use channeld.Base.{
  ℕ, ◌≡◌, ◌≢◌, ◌∙◌, sym, ap, subst, false, Option, none, some, List, [], ◌∷◌, ◌++◌, ◌==◌, opt_eq,
  if◌then◌else◌, arith, Bool-cases, inl, inr, update, lookup, has_key, if-cases,
}
use mathlib.Core.List.{append-nil}
use channeld.World.Types.{ChanRef, World, MessageContext, Handler}
use channeld.World.Access.{get_channel, is_removing}
use channeld.Channel.{put_message_context}
use channeld.Channel.Broadcast.{Distinct}
use channeld.Spatial.Interest.Frame.{Kept}

-- Only this id leads to the channel.
abbrev pub Alone : World → ℕ → ChanRef → Type 0
Alone w id ch = (i : ℕ) → get_channel w i ≡ some ch → i ≡ id

-- The channel as the loops find it at each step: with these messages in its queue, and alone.
abbrev pub Waits : World → ℕ → ChanRef → List (MessageContext × Handler) → Type 0
Waits w id ch q =
    ((w.chans ch).in_msg_queue ≡ q)
    × ((w.chans ch).removing ≡ 0)
    × (get_channel w id ≡ some ch)
    × Alone w id ch

Kept-Waits :
    (w w' : World) (id : ℕ) (ch : ChanRef) (q : List (MessageContext × Handler))
    → Kept w w'
    → Waits w id ch q
    → Waits w' id ch q
unfolding get_channel
Kept-Waits w w' id ch q kept waits = (
  kept.0 ch ∙ waits.0,
  kept.1 ch ∙ waits.1,
  ap (lookup id) kept.2 ∙ waits.2,
  λ i at. waits.3 i (sym (ap (lookup i) kept.2) ∙ at),
)

put-Waits :
    (w : World) (id : ℕ) (ch x : ChanRef) (m : MessageContext) (h : Handler)
    (q : List (MessageContext × Handler))
    → Waits w id ch q
    → Waits (put_message_context w x m h) id ch (if x == ch then q ++ (m, h) ∷ [] else q)
unfolding put_message_context is_removing update get_channel
put-Waits w id ch x m h q waits = (
  ground (arith, waits.0, waits.1),
  ground (arith, waits.1),
  ground (arith, waits.2),
  λ i at. waits.3 i (ground (arith, at)),
)

-- A loop over ids, in which the channel that runs the handler acts by itself, and a message is put into
-- the queue of every other one.
module _ {ℓ} {A : Type ℓ} (runs : Option ChanRef) (handled : A → World → ChanRef → World)
    (message : A → ChanRef → MessageContext) (h : Handler) where
  abbrev pub ask_one : A → World → Option ChanRef → World
  ask_one v w none = w
  ask_one v w (some x) =
      if opt_eq runs (some x) then handled v w x else put_message_context w x (message v x) h

  abbrev pub ask_each : List (ℕ × A) → World → World
  ask_each [] w = w
  ask_each ((i, v) ∷ rest) w = ask_each rest (ask_one v w (get_channel w i))

  abbrev pub asked : ℕ → ChanRef → List (ℕ × A) → List (MessageContext × Handler)
  asked id ch l = elim (lookup id l) [ none ↦ [] | some v ↦ (message v ch, h) ∷ [] ]

  module _ (keeps : (v : A) (w : World) (x : ChanRef) → Kept w (handled v w x)) (id : ℕ)
      (ch : ChanRef) (elsewhere : opt_eq runs (some ch) ≡ false) where
    ask_one-other :
        (v : A) (w : World) (q : List (MessageContext × Handler)) (o : Option ChanRef)
        → o ≢ some ch
        → Waits w id ch q
        → Waits (ask_one v w o) id ch q
    ask_one-other v w q none other waits = waits
    ask_one-other v w q (some x) other waits =
        if-cases (λ w'. Waits w' id ch q) (opt_eq runs (some x))
          (λ here. Kept-Waits w (handled v w x) id ch q (keeps v w x) waits)
          (λ there.
            subst (λ q'. Waits (put_message_context w x (message v x) h) id ch q')
              (ground (arith, other)) (put-Waits w id ch x (message v x) h q waits))

    ask_one-same :
        (v : A) (w : World) (q : List (MessageContext × Handler))
        → Waits w id ch q
        → Waits (ask_one v w (some ch)) id ch (q ++ (message v ch, h) ∷ [])
    ask_one-same v w q waits = rw elsewhere (
        subst (λ q'. Waits (put_message_context w ch (message v ch) h) id ch q') (ground arith)
          (put-Waits w id ch ch (message v ch) h q waits))

    ask_each-absent :
        (l : List (ℕ × A)) (w : World) (q : List (MessageContext × Handler))
        → has_key id l ≡ false
        → Waits w id ch q
        → Waits (ask_each l w) id ch q
    unfolding lookup
    ask_each-absent [] w q absent waits = waits
    ask_each-absent ((i, v) ∷ rest) w q absent waits =
        ask_each-absent rest (ask_one v w (get_channel w i)) q (ground (arith, absent))
          (ask_one-other v w q (get_channel w i) (λ at. ground (arith, absent, waits.3 i at)) waits)

    pub ask_each-Waits :
        (l : List (ℕ × A)) (w : World) (q : List (MessageContext × Handler))
        → Distinct l
        → Waits w id ch q
        → Waits (ask_each l w) id ch (q ++ asked id ch l)
    unfolding lookup
    ask_each-Waits [] w q keys waits = subst (Waits w id ch) (sym (append-nil q)) waits
    ask_each-Waits ((i, v) ∷ rest) w q keys waits = elim (Bool-cases (i == id)) [
      | inl same ↦
          let e : i ≡ id = ground (arith, same) in
          let at : get_channel w i ≡ some ch = ap (get_channel w) e ∙ waits.2 in
          let asked_first =
            subst (λ o. Waits (ask_one v w o) id ch (q ++ (message v ch, h) ∷ [])) (sym at)
              (ask_one-same v w q waits) in
          rw (asked, same)
            (ask_each-absent rest (ask_one v w (get_channel w i)) (q ++ (message v ch, h) ∷ [])
              (ap (λ k. has_key k rest) (sym e) ∙ keys.0) asked_first)
      | inr other ↦
          rw (asked, other)
            (ask_each-Waits rest (ask_one v w (get_channel w i)) q keys.1 (
              ask_one-other v w q (get_channel w i) (λ at. ground (arith, other, waits.3 i at))
                waits))
    ]
