-- ===== src/Data/FanOut/Ending.antt =====
-- The rounds that the loop of `tickData` takes (pkg/channeld/data.go).
use channeld.Base.{
  ℕ, zero, suc, ◌+◌, ◌-◌, ◌*◌, ◌<◌, ◌≡◌, ◌≢◌, refl, ◌∙◌, ap, sym, Bool, true, false, Option, none,
  some, List, [], ◌∷◌, ◌==◌, arith, lookup, update,
}
use channeld.Base.Int.{ℤ, pos, leb_ℤ, pos_part, neg_part, +ℤ_parts}
use channeld.World.Types.{
  ConnRef, ChanRef, World, Env, Options, ChannelData, ChannelSubscription, FanOutConnection,
}
use channeld.World.Access.{is_closing}
use channeld.World.Send.{send-chans}
use channeld.Subscription.{add_ms, ns_per_ms}
use channeld.Data.FanOut.{
  tick_data, tick_from, visit, visit_due, fan_out, first_fan_out, next_fan_out, fan_out_data_update,
  send_merged, move_back, data_update, no_access, has_data, Position,
}

-- How far an element is behind the time of the channel.
abbrev pub lag : ℤ → FanOutConnection → ℕ
lag t foc =
    (pos_part t + neg_part foc.last_fan_out_time) - (pos_part foc.last_fan_out_time + neg_part t)

-- The rounds that are enough.
abbrev pub rounds : ℤ → List FanOutConnection → ℕ
rounds t [] = 0
rounds t (foc ∷ rest) = suc (lag t foc) + rounds t rest

rounds-move_back :
    (t : ℤ) (foc : FanOutConnection) (rest : List FanOutConnection)
    → rounds t (move_back foc rest) ≡ suc (lag t foc) + rounds t rest
unfolding move_back
rounds-move_back t foc [] = refl
rounds-move_back t foc (e ∷ es) = ground (arith, rounds-move_back t foc es)

add_ms-lag :
    (t last : ℤ) (ms : ℕ)
    → 0 < ms
    → leb_ℤ (add_ms last ms) t ≡ true
    → (pos_part t + neg_part (add_ms last ms)) - (pos_part (add_ms last ms) + neg_part t)
      < (pos_part t + neg_part last) - (pos_part last + neg_part t)
unfolding add_ms
add_ms-lag t last ms h due = ground (arith, +ℤ_parts last (pos (ms * ns_per_ms)))

-- What a round leaves of a channel for the loop.
abbrev pub Same : ChanRef → World → World → Type 0
Same ch w w' =
    ((w'.chans ch).subscribed_connections ≡ (w.chans ch).subscribed_connections)
    × (has_data (w'.chans ch).channel_data ≡ has_data (w.chans ch).channel_data)

fan_out_data_update-chans :
    (env : Env) (w : World) (ch : ChanRef) (c : ConnRef) (o : Options) (m : ℕ)
    → (fan_out_data_update env w ch c o m).0.chans ≡ w.chans
unfolding fan_out_data_update
fan_out_data_update-chans env w ch c o m =
    split (env.wrap_any (env.filter_fields o.data_field_masks m)) refl
  where
    split :
        (r : Option ℕ)
        → env.wrap_any (env.filter_fields o.data_field_masks m) ≡ r
        → (fan_out_data_update env w ch c o m).0.chans ≡ w.chans
    split none e = rw (e) refl
    split (some content) e = rw (e) (send-chans env w c (data_update w ch content))

next_fan_out-chans :
    (env : Env) (w : World) (ch : ChanRef) (o : Options) (d : ChannelData) (next : ℤ)
    (foc : FanOutConnection)
    → (next_fan_out env w ch o d next foc).0.chans ≡ w.chans
unfolding next_fan_out
next_fan_out-chans env w ch o d next foc = go _
  where
    go : (m : Option ℕ) → (send_merged env w ch foc.conn o m).chans ≡ w.chans
    go none = refl
    go (some m) = fan_out_data_update-chans env w ch foc.conn o m

first_fan_out-Same :
    (env : Env) (w : World) (ch : ChanRef) (o : Options) (d : ChannelData) (msg : ℕ) (t : ℤ)
    (foc : FanOutConnection)
    → has_data (w.chans ch).channel_data ≡ true
    → Same ch w (first_fan_out env w ch o d msg t foc).0
unfolding first_fan_out update
first_fan_out-Same env w ch o d msg t foc there =
    ground (arith, fan_out_data_update-chans env w ch foc.conn o msg)

fan_out-Same :
    (env : Env) (w : World) (ch : ChanRef) (o : Options) (t : ℤ) (foc : FanOutConnection)
    → has_data (w.chans ch).channel_data ≡ true
    → Same ch w (fan_out env w ch o t foc).0
unfolding fan_out
fan_out-Same env w ch o t foc there = split (w.chans ch).channel_data refl
  where
    in_round :
        (d : ChannelData) (had : Bool) (m : Option ℕ)
        → (w.chans ch).channel_data ≡ some d
        → d.msg ≡ m
        → foc.had_first_fan_out ≡ had
        → Same ch w (fan_out env w ch o t foc).0
    in_round d had none e f h = ground (arith, e, f, there)
    in_round d true (some msg) e f h = ground (
      arith,
      e,
      f,
      h,
      next_fan_out-chans env w ch o d (add_ms foc.last_fan_out_time o.fan_out_interval_ms) foc,
    )
    in_round d false (some msg) e f h =
        ground (arith, e, f, h, first_fan_out-Same env w ch o d msg t foc there)

    split :
        (d : Option ChannelData)
        → (w.chans ch).channel_data ≡ d
        → Same ch w (fan_out env w ch o t foc).0
    split none e = ground (arith, e, there)
    split (some d) e = in_round d foc.had_first_fan_out d.msg e refl refl

fan_out-lag :
    (env : Env) (w : World) (ch : ChanRef) (o : Options) (t : ℤ) (foc : FanOutConnection)
    → has_data (w.chans ch).channel_data ≡ true
    → 0 < o.fan_out_interval_ms
    → leb_ℤ (add_ms foc.last_fan_out_time o.fan_out_interval_ms) t ≡ true
    → lag t (fan_out env w ch o t foc).1 < lag t foc
unfolding fan_out
fan_out-lag env w ch o t foc there positive due =
    ground (arith, add_ms-lag t foc.last_fan_out_time o.fan_out_interval_ms)

-- Every interval is positive.
abbrev pub Paced : World → ChanRef → Type 0
Paced w ch =
    (c : ConnRef) (cs : ChannelSubscription)
    → lookup c (w.chans ch).subscribed_connections ≡ some cs
    → 0 < cs.options.fan_out_interval_ms

-- The channel is as before for the loop, and fewer rounds are left.
abbrev Shorter : ChanRef → ℤ → World → ℕ → Position → Type 0
Shorter ch t w n (w', passed, rest) = Same ch w w' × (rounds t rest < n)

visit-Shorter :
    (env : Env) (ch : ChanRef) (t : ℤ) (w : World) (passed : List FanOutConnection)
    (foc : FanOutConnection) (rest : List FanOutConnection)
    → Paced w ch
    → has_data (w.chans ch).channel_data ≡ true
    → Shorter ch t w (rounds t (foc ∷ rest)) (visit env ch t w passed foc rest)
unfolding visit visit_due
visit-Shorter env ch t w passed foc rest paced there =
    split (is_closing w foc.conn) (lookup foc.conn (w.chans ch).subscribed_connections) refl refl
  where
    Goal : Position → Type 0
    Goal = Shorter ch t w (rounds t (foc ∷ rest))

    due :
        (cs : ChannelSubscription) (b : Bool)
        → lookup foc.conn (w.chans ch).subscribed_connections ≡ some cs
        → leb_ℤ (add_ms foc.last_fan_out_time cs.options.fan_out_interval_ms) t ≡ b
        → Goal (visit_due env ch t w passed foc rest cs.options)
    due cs false f h = rw (h) ((refl, refl), omega arith)
    due cs true f h = rw (h) (
      fan_out-Same env w ch cs.options t foc there,
      omega (
        arith,
        rounds-move_back t (fan_out env w ch cs.options t foc).1 rest,
        fan_out-lag env w ch cs.options t foc there (paced foc.conn cs f) h,
      ),
    )

    access :
        (cs : ChannelSubscription) (b : Bool)
        → is_closing w foc.conn ≡ false
        → lookup foc.conn (w.chans ch).subscribed_connections ≡ some cs
        → (cs.options.data_access == no_access) ≡ b
        → Goal (visit env ch t w passed foc rest)
    access cs true e f a = rw (e, f, a) ((refl, refl), omega arith)
    access cs false e f a =
        rw (e, f, a)
          (due cs (leb_ℤ (add_ms foc.last_fan_out_time cs.options.fan_out_interval_ms) t) f refl)

    split :
        (closed : Bool) (o : Option ChannelSubscription)
        → is_closing w foc.conn ≡ closed
        → lookup foc.conn (w.chans ch).subscribed_connections ≡ o
        → Goal (visit env ch t w passed foc rest)
    split true o e f = rw (e) ((refl, refl), omega arith)
    split false none e f = rw (e, f) ((refl, refl), omega arith)
    split false (some cs) e f = access cs (cs.options.data_access == no_access) e f refl

tick_from-ends :
    (env : Env) (ch : ChanRef) (t : ℤ) (fuel : ℕ) (w : World) (passed rest : List FanOutConnection)
    → Paced w ch
    → has_data (w.chans ch).channel_data ≡ true
    → rounds t rest < fuel
    → tick_from env ch t fuel (w, passed, rest) ≢ none
unfolding tick_from
tick_from-ends env ch t zero w passed rest paced there enough e = absurd (omega arith)
tick_from-ends env ch t (suc fuel) w passed [] paced there enough e = ground (arith, e)
tick_from-ends env ch t (suc fuel) w passed (foc ∷ rest) paced there enough e =
    let r = visit env ch t w passed foc rest in
    let s = visit-Shorter env ch t w passed foc rest paced there in
    tick_from-ends env ch t fuel r.0 r.1 r.2 (λ c cs f. paced c cs (ap (lookup c) (sym s.0.0) ∙ f))
      (s.0.1 ∙ there) (omega (arith, s.1)) e

-- With a positive interval in every subscription the loop ends, within one round for each element
-- and one for each nanosecond by which it is behind the time of the channel.
pub tick_data-ends :
    (env : Env) (w : World) (ch : ChanRef) (t : ℤ) (fuel : ℕ)
    → Paced w ch
    → rounds t (w.chans ch).fan_out_queue < fuel
    → tick_data env fuel w ch t ≢ none
unfolding tick_data
tick_data-ends env w ch t fuel paced enough e =
    ground (arith, tick_from-ends env ch t fuel w [] (w.chans ch).fan_out_queue paced, enough, e)
