-- ===== src/Channel/Ids.antt =====
-- The ids that channels get, and the cached status of the id ranges.
use channeld.Base.{
  ℕ, ◌-◌, ◌≤◌, ◌<◌, ◌≡◌, refl, sym, ap, ◌∙◌, ◌≢◌, ◌⊎◌, inl, inr, Bool, true, false, ◌&&◌, Option,
  none, some, arith, ◌==◌, if◌then◌else◌, if-cases, lookup-insert, is_some, update,
}
use channeld.Ids.{u32_mod, get_next_id}
use channeld.Ids.Search.{get_next_id-fresh, get_next_id-full, get_next_id-total, get_next_id-start}
use channeld.World.Types.{ConnRef, ChanRef, World, Env}
use channeld.World.Access.{global_type, spatial_type, get_channel}
use channeld.Channel.{
  create_channel, create_channel_with_id, create_spatial, create_non_spatial, CreateResult,
  CreateError, created, failed, stuck, global_channel_exists, spatial_channel_full,
  non_spatial_channel_full, in_use, below_start,
}

-- The id ranges of the settings, in `uint32`.
pub record RangesValid (env : Env) : Type 0 where
  pub spatial_pos : 1 < env.spatial_channel_id_start
  pub ordered : env.spatial_channel_id_start < env.entity_channel_id_start
  pub bounded : env.entity_channel_id_start < u32_mod

-- The starts of the two searches lie in their ranges; 0 is the id of the GLOBAL channel.
pub record StartsValid (env : Env) (w : World) : Type 0 where
  pub low : w.next_channel_id < env.spatial_channel_id_start
  pub spatial_from : env.spatial_channel_id_start ≤ w.next_spatial_channel_id
  pub spatial_to : w.next_spatial_channel_id < env.entity_channel_id_start
  pub past_global : (0 < w.next_channel_id) ⊎ (in_use w w.next_channel_id ≡ false)

-- The range that a channel type draws its ids from.
abbrev pub InRange : Env → ℕ → ℕ → Type 0
InRange env t id =
    if t == spatial_type
    then (env.spatial_channel_id_start ≤ id) × (id < env.entity_channel_id_start)
    else id < env.spatial_channel_id_start

below_start-lt : (s : ℕ) → 0 < s → s < u32_mod → below_start s ≡ s - 1
below_start-lt s h k = omega arith

-- The channels that a creation leaves behind.
create_channel_with_id-lookup :
    (env : Env) (w : World) (id t : ℕ) (owner : Option ConnRef) (j : ℕ)
    → get_channel (create_channel_with_id env w id t owner).0 j
      ≡ (if id == j then some w.next_chan else get_channel w j)
unfolding create_channel_with_id get_channel
create_channel_with_id-lookup env w id t owner j = lookup-insert id j w.next_chan w.all_channels

-- What a successful creation leaves: a channel of that type and owner under an id of its range that
-- nobody had; every other id leads where it led.
pub record IsFresh (env : Env) (w w' : World) (t : ℕ) (owner : Option ConnRef) (ch : ChanRef)
    : Type 0 where
  pub unused : get_channel w (w'.chans ch).id ≡ none
  pub in_range : InRange env t (w'.chans ch).id
  pub registered : get_channel w' (w'.chans ch).id ≡ some ch
  pub type_kept : (w'.chans ch).channel_type ≡ t
  pub owner_kept : (w'.chans ch).owner_connection ≡ owner
  pub others : (j : ℕ) → j ≢ (w'.chans ch).id → get_channel w' j ≡ get_channel w j

create_channel_with_id-IsFresh :
    (env : Env) (w : World) (id t : ℕ) (owner : Option ConnRef)
    → in_use w id ≡ false
    → InRange env t id
    → let r = create_channel_with_id env w id t owner in IsFresh env w r.0 t owner r.1
unfolding create_channel_with_id get_channel update
create_channel_with_id-IsFresh env w id t owner free range = record {
  unused = ground arith;
  in_range = ground arith;
  registered = ground (arith, lookup-insert id id w.next_chan w.all_channels);
  type_kept = ground arith;
  owner_kept = ground arith;
  others = λ j ne. ground (arith, lookup-insert id j w.next_chan w.all_channels, ne);
}

-- Every id of a range is in use.
abbrev pub RangeFull : World → ℕ → ℕ → Type 0
RangeFull w lo hi = (k : ℕ) → lo ≤ k → k < hi → in_use w k ≡ true

-- Why a creation failed.
abbrev pub Refused : Env → World → World → ℕ → CreateError → Type 0
Refused env w w' t global_channel_exists = (t ≡ global_type) × (w' ≡ w)
Refused env w w' t spatial_channel_full =
    (t ≡ spatial_type)
    × ((w.spatial_channel_full ≡ true)
        ⊎ RangeFull w env.spatial_channel_id_start env.entity_channel_id_start)
    × (w' ≡ record w { spatial_channel_full = true })
Refused env w w' t non_spatial_channel_full =
    (t ≢ spatial_type)
    × ((w.non_spatial_channel_full ≡ true) ⊎ RangeFull w 1 env.spatial_channel_id_start)
    × (w' ≡ record w { non_spatial_channel_full = true })

abbrev pub Outcome : Env → World → ℕ → Option ConnRef → CreateResult → Type 0
Outcome env w t owner (created w' ch) = IsFresh env w w' t owner ch
Outcome env w t owner (failed w' e) = Refused env w w' t e
Outcome env w t owner stuck = ⊥

IsFresh-before :
    {env : Env} {v w w' : World} {t : ℕ} {owner : Option ConnRef} {ch : ChanRef}
    → ((j : ℕ) → get_channel v j ≡ get_channel w j)
    → IsFresh env v w' t owner ch
    → IsFresh env w w' t owner ch
IsFresh-before {w' = w'} {ch = ch} same f = record {
  unused = sym (same (w'.chans ch).id) ∙ f.unused;
  in_range = f.in_range;
  registered = f.registered;
  type_kept = f.type_kept;
  owner_kept = f.owner_kept;
  others = λ j ne. f.others j ne ∙ same j;
}

start_taken : {i j : ℕ} → ◌≡◌ {A = Option (ℕ × Bool)} (some (i, false)) (some (j, true)) → ⊥
start_taken e = ground arith

module _ (env : Env) (w : World) (owner : Option ConnRef) (ranges : RangesValid env) where
  create_spatial-Outcome :
      (t : ℕ) (r : Option (ℕ × Bool))
      → StartsValid env w
      → t ≡ spatial_type
      → r
        ≡ get_next_id
            (in_use w)
            w.next_spatial_channel_id
            env.spatial_channel_id_start
            (env.entity_channel_id_start - 1)
      → Outcome env w t owner (create_spatial env w t owner r)
  unfolding create_spatial get_channel
  create_spatial-Outcome t none starts is_spatial e = ground (
    arith,
    get_next_id-total (in_use w) w.next_spatial_channel_id env.spatial_channel_id_start
        (env.entity_channel_id_start - 1) (omega arith) (omega arith),
  )
  create_spatial-Outcome t (some (id, true)) starts is_spatial e =
      let found =
        get_next_id-fresh (in_use w) w.next_spatial_channel_id env.spatial_channel_id_start
          (env.entity_channel_id_start - 1) {id = id} (omega arith) (omega arith) (omega arith)
          (sym e) in
      IsFresh-before {v = record w { next_spatial_channel_id = id }} (λ j. refl)
        (create_channel_with_id-IsFresh env (record w { next_spatial_channel_id = id }) id t owner
          found.0 (ground (arith, found)))
  create_spatial-Outcome t (some (id, false)) starts is_spatial e = (
    is_spatial,
    inr λ k above below.
        get_next_id-full (in_use w) w.next_spatial_channel_id env.spatial_channel_id_start
          (env.entity_channel_id_start - 1) k {id = id} (omega arith) (omega arith) (omega arith)
          above (omega arith) (sym e),
    refl,
  )

  create_non_spatial-Outcome :
      (t : ℕ) (r : Option (ℕ × Bool))
      → StartsValid env w
      → t ≢ spatial_type
      → r ≡ get_next_id (in_use w) w.next_channel_id 1 (env.spatial_channel_id_start - 1)
      → Outcome env w t owner (create_non_spatial env w t owner r)
  unfolding create_non_spatial get_channel
  create_non_spatial-Outcome t none starts other e = ground (
    arith,
    get_next_id-total (in_use w) w.next_channel_id 1 (env.spatial_channel_id_start - 1)
        (omega arith) (omega arith),
  )
  create_non_spatial-Outcome t (some (id, true)) starts other e =
      let found =
        get_next_id-fresh (in_use w) w.next_channel_id 1 (env.spatial_channel_id_start - 1)
          {id = id} (omega arith) (omega arith) (omega arith) (sym e) in
      IsFresh-before {v = record w { next_channel_id = id }} (λ j. refl)
        (create_channel_with_id-IsFresh env (record w { next_channel_id = id }) id t owner found.0
          (ground (arith, found)))
  create_non_spatial-Outcome t (some (id, false)) starts other e = elim starts.past_global [
    | inl past ↦ (
      other,
      inr λ k above below.
          get_next_id-full (in_use w) w.next_channel_id 1 (env.spatial_channel_id_start - 1) k
            {id = id} past (omega arith) (omega arith) above (omega arith) (sym e),
      refl,
    )
    | inr free ↦ absurd (
        start_taken (
          e
          ∙ get_next_id-start (in_use w) w.next_channel_id 1 (env.spatial_channel_id_start - 1)
              (omega arith) free))
  ]

-- In a process whose id ranges and next ids are valid, `CreateChannel` always returns. On success
-- the channel has the type and the owner asked for and an id of the range of its type that no
-- channel had, and every other id leads to the channel it led to. It fails without a change when
-- the GLOBAL channel is asked for again, and otherwise only when the range is marked as full or
-- every id of the range is in use, and then nothing but the mark changes.
pub create_channel-Outcome :
    (env : Env) (w : World) (t : ℕ) (owner : Option ConnRef)
    → RangesValid env
    → StartsValid env w
    → Outcome env w t owner (create_channel env w t owner)
unfolding create_channel
create_channel-Outcome env w t owner ranges starts =
    if-cases (Outcome env w t owner) (t == global_type && is_some w.global_channel)
      (λ again. (ground arith, refl))
      λ first.
        if-cases (Outcome env w t owner) (t == spatial_type)
          (λ is_spatial.
            if-cases (Outcome env w t owner) w.spatial_channel_full
              (λ full.
                (ground arith, inl full, ap (λ b. record w { spatial_channel_full = b }) full))
              λ room.
                rw (below_start-lt env.entity_channel_id_start (omega arith) (omega arith))
                  (create_spatial-Outcome env w owner ranges t _ starts (ground arith) refl))
          λ other.
            if-cases (Outcome env w t owner) w.non_spatial_channel_full
              (λ full.
                (ground arith, inl full, ap (λ b. record w { non_spatial_channel_full = b }) full))
              λ room.
                rw (below_start-lt env.spatial_channel_id_start (omega arith) (omega arith))
                  (create_non_spatial-Outcome env w owner ranges t _ starts (ground arith) refl)
