-- ===== src/Spatial/Handover/Sent.antt =====
-- Who is told of a handover (pkg/channeld/spatial.go).
use channeld.Base.{
  ℕ, ◌+◌, ◌≡◌, ◌≢◌, refl, ◌∙◌, sym, ap, subst, true, not, ◌&&◌, ◌||◌, Option, none, some, [], ◌∷◌,
  if◌then◌else◌, arith, update, lookup, has_key, Bool-cases, inl, inr,
}
use channeld.World.Types.{Channel, ConnRef, ChanRef, World, Env}
use channeld.World.Access.{is_closing, get_owner, set_owner, get_channel, is_same_owner}
use channeld.World.Send.{fits, send-chans}
use channeld.Channel.Broadcast.{Distinct}
use channeld.Subscription.{unsubscribe_from_channel, send_unsubscribed, has_interest_in}
use channeld.Spatial.Handover.{
  HandoverEnv, Moving, leave_source, change_owner, change_owners, send_to_source, send_handover,
  hand_over, merge_ids, handover_context,
}
use channeld.Spatial.Handover.Frame.{handovers}
use channeld.Spatial.Handover.Owners.{leave_source-Quiet, step-all_channels}
use channeld.Spatial.Handover.Loops.{
  Gets, Gets-refl, Gets-trans, Quiet-Gets, one_if, Sendable, send_to_source-Gets,
  send_to_destination-Gets,
}

-- The channels of the entities are others than this one.
abbrev pub Apart : World → Moving → ChanRef → Type 0
Apart w es y = (id : ℕ) (x : ChanRef) → has_key id es ≡ true → get_channel w id ≡ some x → x ≢ y

leave_source-subs :
    (env : Env) (w : World) (o : Option ConnRef) (dst_id : ℕ) (x y : ChanRef)
    → x ≢ y
    → ((leave_source env w o dst_id x).chans y).subscribed_connections
      ≡ (w.chans y).subscribed_connections
unfolding send_unsubscribed unsubscribe_from_channel update
leave_source-subs env w none dst_id x y other = refl
leave_source-subs env w (some c) dst_id x y other =
    elim (Bool-cases (is_closing w c || has_interest_in w c dst_id)) [
      | inl stays ↦ rw stays refl
      | inr leaves ↦ rw leaves (
          ap (λ (f : ChanRef → Channel). (f y).subscribed_connections)
            (send-chans env (unsubscribe_from_channel w c x).0 c _)
          ∙ ground (arith, other))
    ]

module _ (env : Env) (src dst : ChanRef) (dst_id : ℕ) where
  change_owner-subs :
      (w : World) (o : Option ChanRef) (y : ChanRef)
      → ((x : ChanRef) → o ≡ some x → x ≢ y)
      → ((change_owner env w src dst dst_id o).chans y).subscribed_connections
        ≡ (w.chans y).subscribed_connections
  unfolding set_owner update
  change_owner-subs w none y other = refl
  change_owner-subs w (some x) y other =
      ground
        (arith, other x refl, leave_source-subs env w (get_owner w src) dst_id x y (other x refl))

  change_owner-Gets :
      (w : World) (o : Option ChanRef) (d : ConnRef)
      → Gets w (change_owner env w src dst dst_id o) d 0
  unfolding set_owner is_closing
  change_owner-Gets w none d = Gets-refl w d
  change_owner-Gets w (some x) d =
      Quiet-Gets w (leave_source env w (get_owner w src) dst_id x) d
        (leave_source-Quiet env w (get_owner w src) dst_id x)

  change_owners-Gets :
      (es : Moving) (w : World) (d : ConnRef) → Gets w (change_owners env w src dst dst_id es) d 0
  unfolding change_owners
  change_owners-Gets [] w d = Gets-refl w d
  change_owners-Gets ((i, e) ∷ es) w d =
      let w' = change_owner env w src dst dst_id (get_channel w i) in
      Gets-trans w w' _ d 0 0 (change_owner-Gets w (get_channel w i) d) (change_owners-Gets es w' d)

  change_owners-subs :
      (es : Moving) (w : World) (y : ChanRef)
      → Apart w es y
      → ((change_owners env w src dst dst_id es).chans y).subscribed_connections
        ≡ (w.chans y).subscribed_connections
  unfolding change_owners get_channel lookup
  change_owners-subs [] w y apart = refl
  change_owners-subs ((i, e) ∷ es) w y apart =
      let w' = change_owner env w src dst dst_id (get_channel w i) in
      change_owners-subs es w' y (λ id x there at.
        apart id x (ground (arith, there))
          (sym (ap (lookup id) (step-all_channels env src dst dst_id w (get_channel w i))) ∙ at))
      ∙ change_owner-subs w (get_channel w i) y (λ x at. apart i x (ground arith) at)

module _ (h : HandoverEnv) (env : Env) (src dst : ChanRef) (src_id dst_id : ℕ) (es : Moving)
    (sendable : Sendable env src_id dst_id) where
  send_handover-Gets :
      (w : World) (m a : ℕ) (d : ConnRef)
      → fits env (handover_context src_id dst_id a (w.chans src).latest_data_update_conn_id) ≡ true
      → Distinct (w.chans src).subscribed_connections
      → Distinct (w.chans dst).subscribed_connections
      → Gets w (send_handover h env w src dst src_id dst_id m a es) d (
          one_if (
            (has_key d (w.chans src).subscribed_connections
              || has_key d (w.chans dst).subscribed_connections)
            && not (is_closing w d)))
  send_handover-Gets w m a d fit src_keys dst_keys =
      let src_subs = (w.chans src).subscribed_connections in
      let dst_subs = (w.chans dst).subscribed_connections in
      let ctx_id = (w.chans src).latest_data_update_conn_id in
      let ctx = handover_context src_id dst_id a ctx_id in
      let w' = send_to_source env w ctx src_subs dst_subs in
      let (sent, open_) = send_to_source-Gets env ctx d dst_subs refl fit src_subs w src_keys in
      let (sent', open') =
        send_to_destination-Gets h env src_id dst_id ctx_id m es d sendable dst_subs w' dst_keys in
      (ground (arith, sent, sent', open_), open' ∙ open_)

  before :
      (w : World) (d : ConnRef)
      → Apart w es src
      → Apart w es dst
      → let w' = if is_same_owner w src dst then w else change_owners env w src dst dst_id es in
        Gets w w' d 0
        × ((w'.chans src).subscribed_connections ≡ (w.chans src).subscribed_connections)
        × ((w'.chans dst).subscribed_connections ≡ (w.chans dst).subscribed_connections)
  before w d src_apart dst_apart = elim (Bool-cases (is_same_owner w src dst)) [
    | inl same ↦ rw same (Gets-refl w d, refl, refl)
    | inr other ↦ rw other (
      change_owners-Gets env src dst dst_id es w d,
      change_owners-subs env src dst dst_id es w src src_apart,
      change_owners-subs env src dst dst_id es w dst dst_apart,
    )
  ]

  -- In a handover, each connection that is subscribed to the source or to the destination, or to
  -- both, and is not closing gets exactly one handover message, and every other connection none. The
  -- entities' channels are others than these two, the keys of the maps of subscriptions differ, and
  -- the messages can be wrapped and packed within the size limit.
  pub hand_over-handovers :
      (w : World) (m : ℕ) (d : ConnRef)
      → Distinct (w.chans src).subscribed_connections
      → Distinct (w.chans dst).subscribed_connections
      → Apart w es src
      → Apart w es dst
      → handovers (((hand_over h env w src dst src_id dst_id m es).0.conns d).send_queue)
        ≡ handovers (w.conns d).send_queue
          + (if (has_key d (w.chans src).subscribed_connections
                  || has_key d (w.chans dst).subscribed_connections)
                && not (is_closing w d)
              then 1
              else 0)
  unfolding hand_over
  hand_over-handovers w m d src_keys dst_keys src_apart dst_apart =
      let w' = if is_same_owner w src dst then w else change_owners env w src dst dst_id es in
      let m' = merge_ids h es m in
      let (quiet, same_src, same_dst) = before w d src_apart dst_apart in
      let (a, wrapped, fit) = sendable m' (w'.chans src).latest_data_update_conn_id in
      let sent =
        (send_handover-Gets w' m' a d fit (subst Distinct (sym same_src) src_keys)
          (subst Distinct (sym same_dst) dst_keys)).0 in
      rw wrapped (ground (arith, quiet, same_src, same_dst, sent))
