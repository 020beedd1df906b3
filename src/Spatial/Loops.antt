-- ===== src/Spatial/Loops.antt =====
-- What the loops over the cells of pkg/channeld/spatial.go reach.
use channeld.Base.{
  ℕ, zero, suc, ◌+◌, ◌≤◌, ◌<◌, ◌≡◌, refl, sym, ◌∙◌, subst, Bool, true, false, ◌&&◌, ◌||◌, List, [],
  ◌∷◌, ◌++◌, ◌==◌, ==_iff, ==_self, Bool-cases, inl, inr, arith,
}
use channeld.Spatial.{each, each_row}

abbrev pub contains_cell : ℕ → ℕ → List (ℕ × ℕ) → Bool
contains_cell x y [] = false
contains_cell x y ((u, v) ∷ cells) = (u == x && v == y) || contains_cell x y cells

contains_cell-append :
    (x y : ℕ) (cs ds : List (ℕ × ℕ))
    → contains_cell x y (cs ++ ds) ≡ (contains_cell x y cs || contains_cell x y ds)
contains_cell-append x y [] ds = refl
contains_cell-append x y ((u, v) ∷ cs) ds = ground (arith, contains_cell-append x y cs ds)

module _ (x y : ℕ) where
  -- A cell of the list is the value of some round of the loop.
  each-found :
      (n i : ℕ) (f : ℕ → ℕ × ℕ)
      → contains_cell x y (each n i f) ≡ true
      → (k : ℕ) × (i ≤ k) × (k < i + n) × (f k ≡ (x, y))
  unfolding each
  each-found zero i f h = ground (arith, h)
  each-found (suc n) i f h = elim (Bool-cases ((f i).0 == x && (f i).1 == y)) [
    | inl e ↦ (i, omega arith, omega arith, ground (arith, e))
    | inr e ↦
        let (k, low, high, at) = each-found n (suc i) f (ground (arith, h, e)) in
        (k, omega (arith, low), omega (arith, high), at)
  ]

  each-reaches :
      (n i k : ℕ) (f : ℕ → ℕ × ℕ)
      → i ≤ k
      → k < i + n
      → f k ≡ (x, y)
      → contains_cell x y (each n i f) ≡ true
  unfolding each
  each-reaches zero i k f low high at = ground (arith, low, high)
  each-reaches (suc n) i k f low high at = elim (Bool-cases (i == k)) [
    | inl e ↦ ground (arith, (==_iff i k).0 e, at, ==_self x, ==_self y)
    | inr e ↦
        ground (arith, each-reaches n (suc i) k f (ground (arith, e, low)) (omega (arith, high)) at)
  ]

  pub each_row-found :
      (n m j : ℕ) (f : ℕ → ℕ → ℕ × ℕ)
      → contains_cell x y (each_row n m j f) ≡ true
      → (u v : ℕ) × (u < m) × (j ≤ v) × (v < j + n) × (f u v ≡ (x, y))
  unfolding each_row
  each_row-found zero m j f h = ground (arith, h)
  each_row-found (suc n) m j f h = elim (Bool-cases (contains_cell x y (each m 0 (λ u. f u j)))) [
    | inl e ↦
        let (k, low, high, at) = each-found m 0 (λ u. f u j) e in
        (k, j, omega (arith, high), omega arith, omega arith, at)
    | inr e ↦
        let (u, v, small, low, high, at) = each_row-found n m (suc j) f (
          ground (
            arith,
            h,
            e,
            contains_cell-append x y (each m 0 (λ u. f u j)) (each_row n m (suc j) f),
          )) in
        (u, v, small, omega (arith, low), omega (arith, high), at)
  ]

  pub each_row-reaches :
      (n m j u v : ℕ) (f : ℕ → ℕ → ℕ × ℕ)
      → u < m
      → j ≤ v
      → v < j + n
      → f u v ≡ (x, y)
      → contains_cell x y (each_row n m j f) ≡ true
  unfolding each_row
  each_row-reaches zero m j u v f small low high at = ground (arith, low, high)
  each_row-reaches (suc n) m j u v f small low high at =
      contains_cell-append x y (each m 0 (λ i. f i j)) (each_row n m (suc j) f)
      ∙ elim (Bool-cases (j == v)) [
        | inl e ↦ ground (
          arith,
          each-reaches m 0 u (λ i. f i j) (omega arith) (omega (arith, small))
              (subst (λ (r : ℕ). f u r ≡ (x, y)) (sym ((==_iff j v).0 e)) at),
        )
        | inr e ↦ ground (
          arith,
          each_row-reaches n m (suc j) u v f small (ground (arith, e, low)) (omega (arith, high))
              at,
        )
      ]
