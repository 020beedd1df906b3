-- ===== src/Spatial/Owned.antt =====
-- Who owns the channels that `CreateChannels` (pkg/channeld/spatial.go) makes.
use channeld.Base.{
  Option-cases, ℕ, ◌<◌, ◌≡◌, true, false, Option, none, some, List, [], ◌∷◌, ◌==◌, contains, arith,
  lookup, lookup-insert, update, insert, subst, Bool-cases, ==_iff, inl, inr,
}
use channeld.World.Types.{ConnRef, ChanRef, Env, World, CreateChannelMessage}
use channeld.World.Access.{get_channel, get_owner, spatial_type, set_chan, broadcast_event}
use channeld.Channel.{create_channel_with_id}
use channeld.Handlers.Lifecycle.{init_data}
use channeld.Spatial.Creating.{create_each, Outcome, error, channels, with_channel, first_data}

-- The id leads to a channel that the connection owns.
pub record Owned (c : ConnRef) (w : World) (id : ℕ) : Type 0 where
  pub ch : ChanRef
  pub old : ch < w.next_chan
  pub found : get_channel w id ≡ some ch
  pub owner : get_owner w ch ≡ some c

module _ (env : Env) (c : ConnRef) where
  -- A new channel is owned, and the others stay so.
  create_channel_with_id-Owned :
      (w : World) (id : ℕ) → Owned c (create_channel_with_id env w id spatial_type (some c)).0 id
  unfolding create_channel_with_id get_channel broadcast_event set_chan update lookup insert
  create_channel_with_id-Owned w id = record {
    ch = w.next_chan;
    old = omega arith;
    found = ground (arith, lookup-insert id id w.next_chan w.all_channels);
    owner = ground arith;
  }

  other_kept :
      (w : World) (id id' : ℕ)
      → Owned c w id'
      → (id == id') ≡ false
      → Owned c (create_channel_with_id env w id spatial_type (some c)).0 id'
  unfolding create_channel_with_id get_channel broadcast_event set_chan update
  other_kept w id id' own ne = record {
    ch = own.ch;
    old = omega (arith, own.old);
    found = ground (arith, lookup-insert id id' w.next_chan w.all_channels, ne, own.found);
    owner = ground (arith, own.owner, own.old);
  }

  create_channel_with_id-keeps :
      (w : World) (id id' : ℕ)
      → Owned c w id'
      → Owned c (create_channel_with_id env w id spatial_type (some c)).0 id'
  create_channel_with_id-keeps w id id' own = elim (Bool-cases (id == id')) [
    | inl e ↦
        subst (λ (i : ℕ). Owned c (create_channel_with_id env w id spatial_type (some c)).0 i)
          ((==_iff id id').0 e) (create_channel_with_id-Owned w id)
    | inr e ↦ other_kept w id id' own e
  ]

  init_data-keeps :
      (w : World) (ch : ChanRef) (msg merge_options : Option ℕ) (id : ℕ)
      → Owned c w id
      → Owned c (init_data env w ch msg merge_options) id
  unfolding init_data get_channel set_chan update
  init_data-keeps w ch msg merge_options id own = record {
    ch = own.ch;
    old = own.old;
    found = own.found;
    owner = ground (arith, own.owner);
  }

  -- The data of a channel is the message that came along, or the default one.
  first_data-init :
      (w w' : World) (ch : ChanRef) (msg : CreateChannelMessage)
      → first_data env w ch msg ≡ some w'
      → (first : Option ℕ) × (init_data env w ch first msg.merge_options ≡ w')
  first_data-init w w' ch msg eq = elim (Option-cases msg.content) [
    | inl e ↦ (none, ground (arith, eq, e))
    | inr (content, e) ↦ elim (Option-cases (env.unmarshal_new content)) [
      | inl bad ↦ (none, ground (arith, eq, e, bad))
      | inr (m, good) ↦ (some m, ground (arith, eq, e, good))
    ]
  ]

  first_data-keeps :
      (w w' : World) (ch : ChanRef) (msg : CreateChannelMessage) (id : ℕ)
      → first_data env w ch msg ≡ some w'
      → Owned c w id
      → Owned c w' id
  first_data-keeps w w' ch msg id eq own =
      let (first, same) = first_data-init w w' ch msg eq in
      subst (λ (v : World). Owned c v id) same (init_data-keeps w ch first msg.merge_options id own)

  with_channel-inv :
      (ch : ChanRef) (o : Outcome) (w : World) (chs : List ChanRef)
      → with_channel ch o ≡ channels w chs
      → (rest : List ChanRef) × (o ≡ channels w rest)
  with_channel-inv ch (error w') w chs eq = ground (arith, eq)
  with_channel-inv ch (channels w' rest) w chs eq = (rest, ground (arith, eq))

  -- The step of `create_each`.
  create_each-inv :
      (w w' : World) (msg : CreateChannelMessage) (id : ℕ) (ids : List ℕ) (chs : List ChanRef)
      → create_each env w c msg (id ∷ ids) ≡ channels w' chs
      → (w₂ : World) × (rest : List ChanRef) × (first_data env
            (create_channel_with_id env w id spatial_type (some c)).0
            (create_channel_with_id env w id spatial_type (some c)).1
            msg
          ≡ some w₂)
        × (create_each env w₂ c msg ids ≡ channels w' rest)
  unfolding create_each
  create_each-inv w w' msg id ids chs eq = elim (Option-cases step) [
    | inl e ↦ ground (arith, eq, e)
    | inr (w₂, e) ↦
        let (rest, same) =
          with_channel-inv (create_channel_with_id env w id spatial_type (some c)).1
            (create_each env w₂ c msg ids) w' chs (ground (arith, eq, e)) in
        (w₂, rest, e, same)
  ]
    where
      step : Option World
      step =
          first_data env (create_channel_with_id env w id spatial_type (some c)).0
            (create_channel_with_id env w id spatial_type (some c)).1 msg

  create_each-keeps :
      (ids : List ℕ) (w w' : World) (msg : CreateChannelMessage) (chs : List ChanRef) (id : ℕ)
      → create_each env w c msg ids ≡ channels w' chs
      → Owned c w id
      → Owned c w' id
  unfolding create_each
  create_each-keeps [] w w' msg chs id eq own =
      subst (λ (v : World). Owned c v id) (ground (arith, eq)) own
  create_each-keeps (i ∷ ids) w w' msg chs id eq own =
      let (w₂, rest, filled, after) = create_each-inv w w' msg i ids chs eq in
      create_each-keeps ids w₂ w' msg rest id after (
        first_data-keeps (create_channel_with_id env w i spatial_type (some c)).0 w₂
          (create_channel_with_id env w i spatial_type (some c)).1 msg id filled
          (create_channel_with_id-keeps w i id own))

-- When the channels of a server have been created without an error, each of their ids leads to a
-- channel that the connection of the server owns.
pub create_each-Owned :
    (env : Env) (c : ConnRef) (ids : List ℕ) (w w' : World) (msg : CreateChannelMessage)
    (chs : List ChanRef) (id : ℕ)
    → create_each env w c msg ids ≡ channels w' chs
    → contains id ids ≡ true
    → Owned c w' id
create_each-Owned env c [] w w' msg chs id eq h = ground (arith, h)
create_each-Owned env c (i ∷ ids) w w' msg chs id eq h =
    let (w₂, rest, filled, after) = create_each-inv env c w w' msg i ids chs eq in
    elim (Bool-cases (i == id)) [
      | inl e ↦ subst (Owned c w') ((==_iff i id).0 e) (
          create_each-keeps env c ids w₂ w' msg rest i after (
            first_data-keeps env c (create_channel_with_id env w i spatial_type (some c)).0 w₂
              (create_channel_with_id env w i spatial_type (some c)).1 msg i filled
              (create_channel_with_id-Owned env c w i)))
      | inr e ↦ create_each-Owned env c ids w₂ w' msg rest id after (ground (arith, h, e))
    ]
