-- ===== src/Entity/Removed.antt =====
-- What `RemoveFromGroup` does and does not remove (pkg/channeld/entity.go).
use channeld.Base.{
  ℕ, ◌<◌, ◌≡◌, refl, ◌∙◌, ap, sym, subst, ltb, Bool, true, false, Option, none, some, List, [], ◌∷◌,
  update, arith,
}
use channeld.World.Types.{ChanRef, World, EntityController}
use channeld.World.Access.{get_channel}
use channeld.Entity.{
  remove_from_group, remove_entities, RemoveResult, removed, no_group, panic, reset_group,
  new_group, set_group, delete_id, handover,
}

-- The group of the entity is there and a later one than `g`.
abbrev group_past : ℕ → Option ℕ → Bool
group_past g none = false
group_past g (some k) = ltb g k

abbrev past : ℕ → Option EntityController → Bool
past g none = false
past g (some ctl) = group_past g ctl.handover_group

-- Nothing has happened to the group, and the entity does not go back to it.
abbrev Past : ℕ → ChanRef → World → World → Type 0
Past g ch w w' =
    (w'.groups g ≡ w.groups g) × (g < w'.next_group) × (past g (w'.controllers ch) ≡ true)

abbrev OnePast : ℕ → ChanRef → World → Option World → Type 0
OnePast g ch w none = Unit {0}
OnePast g ch w (some w') = Past g ch w w'

-- One entity, from the group `k`.
abbrev remove_one : World → ℕ → ℕ → Option World
remove_one w k id =
    reset_group (set_group w k (delete_id id (w.groups k))) handover (get_channel w id)

remove_one-OnePast :
    (w : World) (ch : ChanRef) (g k id : ℕ)
    → past g (w.controllers ch) ≡ true
    → g < k
    → g < w.next_group
    → OnePast g ch w (remove_one w k id)
unfolding update
remove_one-OnePast w ch g k id before late fresh = split (get_channel w id)
  where
    w₁ : World
    w₁ = set_group w k (delete_id id (w.groups k))

    reset :
        (e : ChanRef) (o : Option EntityController)
        → OnePast g ch w (elim o as (λ x. Option World) [
          | none ↦ none
          | some ctl ↦ some (new_group w₁ e ctl handover)
        ])
    reset e none = tt
    reset e (some ctl) =
        (ground (arith, late, fresh), omega arith, ground (arith, late, fresh, before))

    split : (o : Option ChanRef) → OnePast g ch w (reset_group w₁ handover o)
    split none = (ground (arith, late), fresh, before)
    split (some e) = reset e (w.controllers e)

abbrev pub Untouched : ℕ → World → RemoveResult → Type 0
Untouched g w (removed w') = w'.groups g ≡ w.groups g
Untouched g w no_group = Unit {0}
Untouched g w panic = Unit {0}

remove_entities-Untouched :
    (w : World) (ch : ChanRef) (g : ℕ) (ids : List ℕ)
    → past g (w.controllers ch) ≡ true
    → g < w.next_group
    → Untouched g w (remove_entities w ch handover ids)
unfolding remove_entities
remove_entities-Untouched w ch g [] before fresh = refl
remove_entities-Untouched w ch g (id ∷ ids) before fresh =
    controlled (w.controllers ch) refl (λ w'. remove_entities-Untouched w' ch g ids)
  where
    Rest : Type 0
    Rest =
        (w' : World)
        → past g (w'.controllers ch) ≡ true
        → g < w'.next_group
        → Untouched g w' (remove_entities w' ch handover ids)

    carried :
        (w' : World) (r : RemoveResult)
        → w'.groups g ≡ w.groups g
        → Untouched g w' r
        → Untouched g w r
    carried w' (removed v) same u = u ∙ same
    carried w' no_group same u = tt
    carried w' panic same u = tt

    one :
        (k : ℕ) (o : Option World)
        → OnePast g ch w o
        → Rest
        → Untouched g w (elim o as (λ x. RemoveResult) [
          | none ↦ panic
          | some w' ↦ remove_entities w' ch handover ids
        ])
    one k none p ih = tt
    one k (some w') p ih = carried w' (remove_entities w' ch handover ids) p.0 (ih w' p.2 p.1)

    grouped :
        (o : Option ℕ)
        → group_past g o ≡ true
        → Rest
        → Untouched g w (elim o as (λ x. RemoveResult) [
          | none ↦ panic
          | some k ↦ elim (remove_one w k id) [
            | none ↦ panic
            | some w' ↦ remove_entities w' ch handover ids
          ]
        ])
    grouped none p ih = tt
    grouped (some k) p ih =
        one k (remove_one w k id) (remove_one-OnePast w ch g k id before (ground (arith, p)) fresh)
          ih

    controlled :
        (o : Option EntityController)
        → w.controllers ch ≡ o
        → Rest
        → Untouched g w (remove_entities w ch handover (id ∷ ids))
    controlled none e ih = rw (e, remove_entities) tt
    controlled (some ctl) e ih =
        rw (e, remove_entities) (grouped ctl.handover_group (ap (past g) (sym e) ∙ before) ih)

-- An entity that is named first in its own `RemoveFromGroup` gets a new group before the others are
-- looked at, and these are then deleted from the new one: only the entity itself leaves the group
-- that was shared, whoever else was named.
remove_from_group-own_first :
    (w w' : World) (ch : ChanRef) (ctl : EntityController) (g : ℕ) (others : List ℕ)
    → w.controllers ch ≡ some ctl
    → ctl.handover_group ≡ some g
    → g < w.next_group
    → get_channel w ctl.entity_id ≡ some ch
    → remove_from_group w ch ctl handover (ctl.entity_id ∷ others) ≡ removed w'
    → w'.groups g ≡ delete_id ctl.entity_id (w.groups g)
unfolding remove_from_group remove_entities update
remove_from_group-own_first w w' ch ctl g others e f fresh own done = left ∙ ground (arith, fresh)
  where
    w₁ : World
    w₁ = set_group w g (delete_id ctl.entity_id (w.groups g))

    w₂ : World
    w₂ = new_group w₁ ch ctl handover

    step :
        remove_from_group w ch ctl handover (ctl.entity_id ∷ others)
        ≡ remove_entities w₂ ch handover others
    step = ground (arith, e, f, own)

    left : w'.groups g ≡ w₂.groups g
    left =
        subst (Untouched g w₂) (sym step ∙ done)
          (remove_entities-Untouched w₂ ch g others (ground (arith, fresh)) (omega arith))
