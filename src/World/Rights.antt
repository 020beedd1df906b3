-- ===== src/World/Rights.antt =====
-- Who has access to a channel (pkg/channeld/channel_acl.go).
use channeld.Base.{
  ℕ, ◌≡◌, ◌⊎◌, ◌↔◌, true, false, Option, none, some, sym, subst, Option-cases, ==_iff, arith,
  lookup, inl, inr,
}
use channeld.World.Types.{ConnRef, ChanRef, World, Env, ChannelSettings, sender}
use channeld.World.Access.{get_owner}
use channeld.World.Acl.{
  check_acl, is_granted, global_owner, sub, unsub, remove, AccessType, check_level, level_of,
  none_level, owner_is,
}

-- What an access level of the settings (`ChannelAccessLevel`) allows: 3 everyone, 1 and 2 the owner
-- of the channel, 2 also the owner of the GLOBAL channel; 0 and other numbers nobody.
abbrev pub Allows : ℕ → Type 0 → Type 0 → Type 0
Allows level Owns OwnsGlobal =
    (level ≡ 3) ⊎ ((level ≡ 1) × Owns) ⊎ ((level ≡ 2) × Owns) ⊎ ((level ≡ 2) × OwnsGlobal)

abbrev pub Owns : World → ChanRef → ConnRef → Type 0
Owns w ch c = get_owner w ch ≡ some c

abbrev pub OwnsGlobal : World → ConnRef → Type 0
OwnsGlobal w c = (g : ChanRef) × (w.global_channel ≡ some g) × (get_owner w g ≡ some c)

owner_is-Owns : (o : Option ConnRef) (c : ConnRef) → (owner_is o (sender c) ≡ true) ↔ (o ≡ some c)
owner_is-Owns none c = ground arith
owner_is-Owns (some o) c = ground (arith, ==_iff o c)

owner_is-OwnsGlobal :
    (w : World) (c : ConnRef) → (owner_is (global_owner w) (sender c) ≡ true) ↔ OwnsGlobal w c
unfolding global_owner
owner_is-OwnsGlobal w c = elim (Option-cases w.global_channel) [
  | inl missing ↦ (
    λ e. absurd (ground (arith, e, missing)),
    λ (g, there, e). absurd (ground (arith, there, missing)),
  )
  | inr (g, there) ↦ (
    λ e. (g, there, (owner_is-Owns (get_owner w g) c).0 (ground (arith, e, there))),
    λ (h, at, e). ground (arith, there, at, (owner_is-Owns (get_owner w h) c).1 e),
  )
]

check_level-Allows :
    (level : ℕ) (owner global : Option ConnRef) (c : ConnRef)
    → (is_granted (check_level level owner global (sender c)) ≡ true)
      ↔ Allows level (owner_is owner (sender c) ≡ true) (owner_is global (sender c) ≡ true)
check_level-Allows level owner global c = ground arith

Allows-map :
    {A B C D : Type 0} (level : ℕ) → (A → B) → (C → D) → Allows level A C → Allows level B D
Allows-map level f g (inl e) = inl e
Allows-map level f g (inr (inl (e, a))) = inr (inl (e, f a))
Allows-map level f g (inr (inr (inl (e, a)))) = inr (inr (inl (e, f a)))
Allows-map level f g (inr (inr (inr (e, b)))) = inr (inr (inr (e, g b)))

-- One test of a level.
granted-Allows :
    (level : ℕ) (w : World) (ch : ChanRef) (c : ConnRef)
    → (is_granted (check_level level (get_owner w ch) (global_owner w) (sender c)) ≡ true)
      ↔ Allows level (Owns w ch c) (OwnsGlobal w c)
granted-Allows level w ch c =
    let own = owner_is-Owns (get_owner w ch) c in
    let own_global = owner_is-OwnsGlobal w c in
    let tests = check_level-Allows level (get_owner w ch) (global_owner w) c in
    (
      λ e. Allows-map level own.0 own_global.0 (tests.0 e),
      λ a. tests.1 (Allows-map level own.1 own_global.1 a),
    )

-- With settings for the type of the channel, a connection is let in to subscribe exactly when the
-- setting for subscribing allows it, to unsubscribe when the one for unsubscribing does, and to
-- remove when the one for removing does: level 3 allows everyone, 1 and 2 the owner of the channel,
-- 2 also the owner of the GLOBAL channel, 0 and unknown levels nobody. Without settings nobody is
-- let in to anything.
pub check_acl-granted :
    (env : Env) (w : World) (ch : ChanRef) (c : ConnRef)
    → ((s : ChannelSettings)
        → lookup (w.chans ch).channel_type env.channel_settings ≡ some s
        → ((is_granted (check_acl env w ch (sender c) sub) ≡ true)
            ↔ Allows s.acl_settings.sub (Owns w ch c) (OwnsGlobal w c))
          × ((is_granted (check_acl env w ch (sender c) unsub) ≡ true)
              ↔ Allows s.acl_settings.unsub (Owns w ch c) (OwnsGlobal w c))
          × ((is_granted (check_acl env w ch (sender c) remove) ≡ true)
              ↔ Allows s.acl_settings.remove (Owns w ch c) (OwnsGlobal w c)))
      × (lookup (w.chans ch).channel_type env.channel_settings ≡ none
          → (access : AccessType) → is_granted (check_acl env w ch (sender c) access) ≡ false)
unfolding check_acl
check_acl-granted env w ch c = (
  λ s e. (
    subst (λ (o : Option ChannelSettings). P o sub s.acl_settings.sub) (sym e)
        (granted-Allows s.acl_settings.sub w ch c),
    subst (λ (o : Option ChannelSettings). P o unsub s.acl_settings.unsub) (sym e)
        (granted-Allows s.acl_settings.unsub w ch c),
    subst (λ (o : Option ChannelSettings). P o remove s.acl_settings.remove) (sym e)
        (granted-Allows s.acl_settings.remove w ch c),
  ),
  λ e access. ground (arith, e),
)
  where
    P : Option ChannelSettings → AccessType → ℕ → Type 0
    P o access level =
        (is_granted (
            check_level (elim o [ none ↦ none_level | some s ↦ level_of access s.acl_settings ])
              (get_owner w ch) (global_owner w) (sender c))
          ≡ true)
        ↔ Allows level (Owns w ch c) (OwnsGlobal w c)
