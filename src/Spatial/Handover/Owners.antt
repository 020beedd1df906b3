-- ===== src/Spatial/Handover/Owners.antt =====
-- Whose the entities are after a handover (pkg/channeld/spatial.go).
use channeld.Base.{
  ℕ, ◌≡◌, refl, ◌∙◌, sym, ap, Bool, true, false, ◌||◌, Option, none, some, List, [], ◌∷◌, ◌==◌,
  opt_eq, if◌then◌else◌, arith, update, lookup, has_key, Bool-cases, inl, inr,
}
use channeld.World.Types.{
  Channel, ConnRef, ChanRef, World, Env, ChannelSubscription, MessageContext,
}
use channeld.World.Access.{is_closing, get_owner, set_owner, get_channel, is_same_owner, send}
use channeld.World.Send.{send-chans}
use channeld.Channel.Ticks.{no_context}
use channeld.Subscription.{
  unsubscribe_from_channel, send_unsubscribed, has_interest_in, subscribe_to_channel,
}
use channeld.Spatial.Handover.{
  HandoverEnv, Moving, leave_source, change_owner, change_owners, take_over, take_over_each,
  after_subscribing, send_to_source, send_to_destination, send_any, send_wrapped, hand_over,
  handover_options, merge_ids, handover_context,
}
use channeld.Spatial.Handover.Frame.{
  Quiet, Quiet-refl, Quiet-trans, send-Quiet, send_subscribed-Quiet, unsubscribe-Quiet,
  subscribe-Quiet,
}

pub leave_source-Quiet :
    (env : Env) (w : World) (o : Option ConnRef) (dst_id : ℕ) (x : ChanRef)
    → Quiet w (leave_source env w o dst_id x)
unfolding send_unsubscribed
leave_source-Quiet env w none dst_id x = Quiet-refl w
leave_source-Quiet env w (some c) dst_id x =
    elim (Bool-cases (is_closing w c || has_interest_in w c dst_id)) [
      | inl stays ↦ rw stays (Quiet-refl w)
      | inr leaves ↦ rw leaves (
          Quiet-trans w (unsubscribe_from_channel w c x).0 _ (unsubscribe-Quiet env w c x)
            (send-Quiet env (unsubscribe_from_channel w c x).0 c _ refl))
    ]

module _ (env : Env) (src dst : ChanRef) (dst_id : ℕ) where
  abbrev step : World → Option ChanRef → World
  step w o = change_owner env w src dst dst_id o

  step-owner :
      (w : World) (x y : ChanRef)
      → get_owner (step w (some x)) y ≡ (if x == y then get_owner w dst else get_owner w y)
  unfolding set_owner update
  step-owner w x y = ground (
    arith,
    (leave_source-Quiet env w (get_owner w src) dst_id x).2 y,
    (leave_source-Quiet env w (get_owner w src) dst_id x).2 dst,
  )

  step-settled :
      (w : World) (o : Option ChanRef) (y : ChanRef)
      → get_owner w y ≡ get_owner w dst
      → get_owner (step w o) y ≡ get_owner w dst
  step-settled w none y same = same
  step-settled w (some x) y same = ground (arith, step-owner w x y, same)

  step-dst : (w : World) (o : Option ChanRef) → get_owner (step w o) dst ≡ get_owner w dst
  step-dst w o = step-settled w o dst refl

  pub step-all_channels :
      (w : World) (o : Option ChanRef) → (step w o).all_channels ≡ w.all_channels
  unfolding set_owner
  step-all_channels w none = refl
  step-all_channels w (some x) = (leave_source-Quiet env w (get_owner w src) dst_id x).3

  change_owners-settled :
      (es : Moving) (w : World) (y : ChanRef)
      → get_owner w y ≡ get_owner w dst
      → get_owner (change_owners env w src dst dst_id es) y ≡ get_owner w dst
  unfolding change_owners
  change_owners-settled [] w y same = same
  change_owners-settled ((i, d) ∷ es) w y same =
      let o = get_channel w i in
      change_owners-settled es (step w o) y (step-settled w o y same ∙ sym (step-dst w o))
      ∙ step-dst w o

  pub change_owners-owner :
      (es : Moving) (w : World) (id : ℕ) (x : ChanRef)
      → has_key id es ≡ true
      → get_channel w id ≡ some x
      → get_owner (change_owners env w src dst dst_id es) x ≡ get_owner w dst
  unfolding change_owners get_channel lookup
  change_owners-owner [] w id x listed at = ground (arith, listed)
  change_owners-owner ((i, d) ∷ es) w id x listed at =
      let o = get_channel w i in
      elim (Bool-cases (i == id)) [
        | inl same ↦
            change_owners-settled es (step w o) x (
              ap (λ p. get_owner (step w p) x)
                (ap (λ k. get_channel w k) (ground (arith, same)) ∙ at)
              ∙ ground (arith, step-owner w x x)
              ∙ sym (step-dst w o))
            ∙ step-dst w o
        | inr other ↦
            change_owners-owner es (step w o) id x (ground (arith, other, listed))
              (ap (lookup id) (step-all_channels w o) ∙ at)
            ∙ step-dst w o
      ]

take_over-Quiet :
    (h : HandoverEnv) (env : Env) (w : World) (c : ConnRef) (m : ℕ) (o : Option ChanRef)
    (d : Option ℕ)
    → Quiet w (take_over h env w c m o d).0
take_over-Quiet h env w c m none d = Quiet-refl w
take_over-Quiet h env w c m (some x) none = Quiet-refl w
take_over-Quiet h env w c m (some x) (some d) =
    told
      (subscribe_to_channel env w c x (some (handover_options (opt_eq (get_owner w x) (some c)))))
      (subscribe-Quiet env w c x (some (handover_options (opt_eq (get_owner w x) (some c)))))
  where
    told :
        (r : World × Option ChannelSubscription × Bool)
        → Quiet w r.0
        → Quiet w (after_subscribing h env c x d m r).0
    told (w', none, should_send) quiet = quiet
    told (w', some cs, true) quiet =
        Quiet-trans w w' _ quiet (send_subscribed-Quiet env w' c no_context x c 0 cs.options)
    told (w', some cs, false) quiet = quiet

pub take_over_each-Quiet :
    (h : HandoverEnv) (env : Env) (es : Moving) (w : World) (c : ConnRef) (m : ℕ)
    → Quiet w (take_over_each h env w c m es).0
unfolding take_over_each
take_over_each-Quiet h env [] w c m = Quiet-refl w
take_over_each-Quiet h env ((i, d) ∷ es) w c m =
    let (w', m') = take_over h env w c m (get_channel w i) d in
    Quiet-trans w w' (take_over_each h env w' c m' es).0
      (take_over-Quiet h env w c m (get_channel w i) d) (take_over_each-Quiet h env es w' c m')

pub send_any-owner :
    (env : Env) (w : World) (c : ConnRef) (src_id dst_id ctx_id : ℕ) (o : Option ℕ) (x : ChanRef)
    → get_owner (send_any env w c src_id dst_id ctx_id o) x ≡ get_owner w x
send_any-owner env w c src_id dst_id ctx_id none x = refl
send_any-owner env w c src_id dst_id ctx_id (some any) x =
    ap (λ (f : ChanRef → Channel). (f x).owner_connection)
      (send-chans env w c (handover_context src_id dst_id any ctx_id))

pub send_to_source-chans :
    (env : Env) (ctx : MessageContext) (subs dst_subs : List (ConnRef × ChannelSubscription))
    (w : World)
    → (send_to_source env w ctx subs dst_subs).chans ≡ w.chans
unfolding send_to_source
send_to_source-chans env ctx [] dst_subs w = refl
send_to_source-chans env ctx ((c, cs) ∷ rest) dst_subs w =
    let w' = if has_key c dst_subs then w else send env w c ctx in
    send_to_source-chans env ctx rest dst_subs w' ∙ ground (arith, send-chans env w c ctx)

send_to_destination-owner :
    (h : HandoverEnv) (env : Env) (src_id dst_id ctx_id m : ℕ) (es : Moving)
    (subs : List (ConnRef × ChannelSubscription)) (w : World) (x : ChanRef)
    → get_owner (send_to_destination h env w src_id dst_id ctx_id m es subs) x ≡ get_owner w x
unfolding send_to_destination
send_to_destination-owner h env src_id dst_id ctx_id m es [] w x = refl
send_to_destination-owner h env src_id dst_id ctx_id m es ((c, cs) ∷ rest) w x =
    let (w', m') = take_over_each h env w c (h.new_message m) es in
    send_to_destination-owner h env src_id dst_id ctx_id m es rest
      (send_any env w' c src_id dst_id ctx_id (env.wrap_any m')) x
    ∙ send_any-owner env w' c src_id dst_id ctx_id (env.wrap_any m') x
    ∙ (take_over_each-Quiet h env es w c (h.new_message m)).2 x

pub send_wrapped-owner :
    (h : HandoverEnv) (env : Env) (w : World) (src dst : ChanRef) (src_id dst_id m : ℕ)
    (es : Moving) (o : Option ℕ) (x : ChanRef)
    → get_owner (send_wrapped h env w src dst src_id dst_id m es o) x ≡ get_owner w x
send_wrapped-owner h env w src dst src_id dst_id m es none x = refl
send_wrapped-owner h env w src dst src_id dst_id m es (some any) x =
    send_to_destination-owner h env src_id dst_id _ m es _ _ x
    ∙ ap (λ (f : ChanRef → Channel). (f x).owner_connection) (send_to_source-chans env _ _ _ w)

-- In a handover between servers, every entity that moves and has a channel gets the owner of the
-- destination as the owner of its channel, and no step after this one changes it: what the source
-- server still sends is then from one that does not own the entity. It is so whichever of the steps
-- fails, also where the destination has no owner; the entities have none either then.
pub hand_over-owner :
    (h : HandoverEnv) (env : Env) (w : World) (src dst : ChanRef) (src_id dst_id m : ℕ)
    (es : Moving) (id : ℕ) (x : ChanRef)
    → is_same_owner w src dst ≡ false
    → has_key id es ≡ true
    → get_channel w id ≡ some x
    → get_owner (hand_over h env w src dst src_id dst_id m es).0 x ≡ get_owner w dst
unfolding hand_over
hand_over-owner h env w src dst src_id dst_id m es id x other listed at =
    let w' = change_owners env w src dst dst_id es in
    let m' = merge_ids h es m in
    rw other (
      send_wrapped-owner h env w' src dst src_id dst_id m' es (env.wrap_any m') x
      ∙ change_owners-owner env src dst dst_id es w id x listed at)
