-- ===== src/Entity/Shared.antt =====
-- Entities that share a group (pkg/channeld/entity.go).
use channeld.Base.{
  ℕ, ◌≡◌, refl, ◌∙◌, ap, subst, sym, Bool, true, false, ◌||◌, Option, none, some, List, [], ◌∷◌,
  ◌==◌, opt_eq, update, contains, contains-append, lookup, arith, ==_self,
}
use channeld.World.Types.{ChanRef, World, EntityController}
use channeld.World.Access.{get_channel}
use channeld.Entity.{
  add_to_group, add_to, add_entities, cascade_to, cascade_group, add_id, add_ids, set_group,
  new_group, members, handover, handover_entities, any_in,
}

abbrev pub has_no_lock : Option EntityController → Bool
has_no_lock none = false
has_no_lock (some ctl) = elim ctl.lock_group [ none ↦ true | some _ ↦ false ]

abbrev pub in_group : ℕ → Option EntityController → Bool
in_group g none = false
in_group g (some ctl) = opt_eq ctl.handover_group (some g)

contains-add_id :
    (id x : ℕ) (ids : List ℕ) → contains x (add_id id ids) ≡ (contains x ids || id == x)
unfolding add_id
contains-add_id id x ids = ground (arith, contains-append x ids (id ∷ []))

contains-add_ids :
    (xs ids : List ℕ) (x : ℕ) → contains x ids ≡ true → contains x (add_ids xs ids) ≡ true
unfolding add_ids
contains-add_ids [] ids x h = h
contains-add_ids (y ∷ xs) ids x h =
    contains-add_ids xs (add_id y ids) x (ground (arith, contains-add_id y x ids, h))

module _ (w : World) (g : ℕ) where
  cascade_to-contains :
      (x : ℕ) (o : Option ChanRef)
      → contains x (w.groups g) ≡ true
      → contains x ((cascade_to w handover g o).groups g) ≡ true
  unfolding cascade_group update
  cascade_to-contains x none h = h
  cascade_to-contains x (some ch) h = split (w.controllers ch) refl
    where
      split :
          (o : Option EntityController)
          → w.controllers ch ≡ o
          → contains x ((cascade_to w handover g (some ch)).groups g) ≡ true
      split none e = ground (arith, e, h)
      split (some ctl) e =
          ground (arith, e, h, contains-add_ids (members w ctl.handover_group) (w.groups g) x)

  cascade_to-all_channels :
      (o : Option ChanRef) → (cascade_to w handover g o).all_channels ≡ w.all_channels
  unfolding cascade_group
  cascade_to-all_channels none = refl
  cascade_to-all_channels (some ch) = ground arith

  -- An entity that is not locked stays so, and stays in the group.
  cascade_to-keeps :
      (o : Option ChanRef) (e : ChanRef)
      → has_no_lock (w.controllers e) ≡ true
      → (has_no_lock ((cascade_to w handover g o).controllers e) ≡ true)
        × (in_group g (w.controllers e) ≡ true
            → in_group g ((cascade_to w handover g o).controllers e) ≡ true)
  unfolding cascade_group update
  cascade_to-keeps none e h = (h, λ i. i)
  cascade_to-keeps (some ch) e h = (ground (arith, h), λ i. ground (arith, h, i))

  cascade_to-joins :
      (e : ChanRef)
      → has_no_lock (w.controllers e) ≡ true
      → in_group g ((cascade_to w handover g (some e)).controllers e) ≡ true
  unfolding cascade_group update
  cascade_to-joins e h = ground (arith, h)

add_entities-contains :
    (w : World) (g x : ℕ) (ids : List ℕ)
    → contains x (w.groups g) ≡ true
    → contains x ((add_entities w handover g ids).groups g) ≡ true
unfolding add_entities update
add_entities-contains w g x [] h = h
add_entities-contains w g x (id ∷ ids) h =
    let w' = set_group w g (add_id id (w.groups g)) in
    add_entities-contains (cascade_to w' handover g (get_channel w' id)) g x ids (
      cascade_to-contains w' g x (get_channel w' id)
        (ground (arith, contains-add_id id x (w.groups g), h)))

add_entities-keeps :
    (w : World) (g : ℕ) (ids : List ℕ) (e : ChanRef)
    → has_no_lock (w.controllers e) ≡ true
    → in_group g (w.controllers e) ≡ true
    → in_group g ((add_entities w handover g ids).controllers e) ≡ true
unfolding add_entities
add_entities-keeps w g [] e h i = i
add_entities-keeps w g (id ∷ ids) e h i =
    let w' = set_group w g (add_id id (w.groups g)) in
    let one = cascade_to-keeps w' g (get_channel w' id) e h in
    add_entities-keeps (cascade_to w' handover g (get_channel w' id)) g ids e one.0 (one.1 i)

add_entities-shares :
    (w : World) (g : ℕ) (ids : List ℕ) (id : ℕ) (e : ChanRef)
    → contains id ids ≡ true
    → get_channel w id ≡ some e
    → has_no_lock (w.controllers e) ≡ true
    → let w' = add_entities w handover g ids in
      (contains id (w'.groups g) ≡ true) × (in_group g (w'.controllers e) ≡ true)
unfolding add_entities get_channel update
add_entities-shares w g [] id e there found h = ground (arith, there)
add_entities-shares w g (x ∷ ids) id e there found h = split (x == id) refl (λ t.
    add_entities-shares (cascade_to w' handover g (get_channel w' x)) g ids id e t
      (ap (lookup id) (cascade_to-all_channels w' g (get_channel w' x)) ∙ found)
      (cascade_to-keeps w' g (get_channel w' x) e h).0)
  where
    w' : World
    w' = set_group w g (add_id x (w.groups g))

    w'' : World
    w'' = cascade_to w' handover g (get_channel w' x)

    same : (x == id) ≡ true → x ≡ id
    same q = ground (arith, q)

    Goal : Type 0
    Goal =
        (contains id ((add_entities w'' handover g ids).groups g) ≡ true)
        × (in_group g ((add_entities w'' handover g ids).controllers e) ≡ true)

    split : (b : Bool) → (x == id) ≡ b → (contains id ids ≡ true → Goal) → Goal
    split false q ih = ih (ground (arith, there, q))
    split true q ih = (
      add_entities-contains w'' g id ids (
          cascade_to-contains w' g id (get_channel w' x)
            (ground (arith, contains-add_id x id (w.groups g), q))),
      add_entities-keeps w'' g ids e (cascade_to-keeps w' g (get_channel w' x) e h).0 (
          subst (λ o. in_group g ((cascade_to w' handover g o).controllers e) ≡ true)
            (sym (ap (λ k. lookup k w.all_channels) (same q) ∙ found)) (cascade_to-joins w' g e h)),
    )

-- The group that `AddToGroup` works on.
abbrev pub target : World → EntityController → ℕ
target w ctl = elim ctl.handover_group [ none ↦ w.next_group | some g ↦ g ]

-- After `AddToGroup` for the handover, on an entity that has no lock group, every entity that was
-- named, has a channel with a controller and has no lock group shares the group of this one: its
-- channel points to that group, and the group holds it.
pub add_to_group-shares :
    (w : World) (ch : ChanRef) (ctl : EntityController) (ids : List ℕ) (id : ℕ) (e : ChanRef)
    → contains id ids ≡ true
    → get_channel w id ≡ some e
    → has_no_lock (w.controllers e) ≡ true
    → has_no_lock (some ctl) ≡ true
    → let w' = add_to_group w ch ctl handover ids in
      (contains id (w'.groups (target w ctl)) ≡ true)
      × (in_group (target w ctl) (w'.controllers e) ≡ true)
unfolding add_to_group update get_channel
add_to_group-shares w ch ctl ids id e there found h own = split ctl.handover_group refl
  where
    split :
        (o : Option ℕ)
        → ctl.handover_group ≡ o
        → (contains id (
              (add_to w ch ctl handover ids o).groups (elim o [ none ↦ w.next_group | some g ↦ g ]))
            ≡ true)
          × (in_group
                (elim o [ none ↦ w.next_group | some g ↦ g ])
                ((add_to w ch ctl handover ids o).controllers e)
              ≡ true)
    split (some g) q = add_entities-shares w g ids id e there found h
    split none q =
        add_entities-shares (new_group w ch ctl handover) w.next_group ids id e there found
          (ground (arith, h, own))

abbrev pub NoneLocked : List ℕ → List ℕ → Type 0
NoneLocked ids locked = (x : ℕ) → contains x ids ≡ true → contains x locked ≡ false

any_in-none : (ids locked : List ℕ) → NoneLocked ids locked → any_in ids locked ≡ false
unfolding any_in
any_in-none [] locked h = refl
any_in-none (x ∷ ids) locked h =
    ground (arith, h x, ==_self x, any_in-none ids locked (λ y m. h y (ground (arith, m))))

any_in-one :
    (ids locked : List ℕ) (x : ℕ)
    → contains x ids ≡ true
    → contains x locked ≡ true
    → any_in ids locked ≡ true
unfolding any_in
any_in-one [] locked x h k = ground (arith, h)
any_in-one (y ∷ ids) locked x h k = ground (arith, h, k, any_in-one ids locked x)

-- The entities of a group are handed over together or not at all: all of them where none is in the
-- lock group of the entity that moves, and nobody where one of them is.
pub handover_entities-together :
    (w : World) (ctl : EntityController) (g : ℕ)
    → ctl.handover_group ≡ some g
    → (NoneLocked (w.groups g) (members w ctl.lock_group) → handover_entities w ctl ≡ w.groups g)
      × ((x : ℕ)
          → contains x (w.groups g) ≡ true
          → contains x (members w ctl.lock_group) ≡ true
          → handover_entities w ctl ≡ [])
unfolding handover_entities
handover_entities-together w ctl g e = (
  λ none_locked. rw (e, any_in-none (w.groups g) (members w ctl.lock_group) none_locked) refl,
  λ x h k. rw (e, any_in-one (w.groups g) (members w ctl.lock_group) x h k) refl,
)
