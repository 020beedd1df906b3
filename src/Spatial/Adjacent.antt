-- ===== src/Spatial/Adjacent.antt =====
-- Which channels `GetAdjacentChannels` (pkg/channeld/spatial.go) lists.
use channeld.Base.{
  ℕ, ◌+◌, ◌*◌, ◌/◌, ◌%◌, ◌<◌, ◌≡◌, refl, sym, ap, ◌∙◌, Bool, true, not, ◌&&◌, List, [], ◌∷◌, ◌==◌,
  leb, ◌-◌, some, ==_iff, ==_self, contains, contains-append, Bool-cases, inl, inr, arith,
}
use channeld.World.Types.{Env}
use channeld.Spatial.{
  i32_limit, Grid, cell_id, around, other_cells, adjacent_rows, get_adjacent_channels,
}
use channeld.Spatial.Cells.{GridValid, cell_id-eq, index_of, index-mod, index-div}

-- Two numbers that differ by one at most.
abbrev pub near : ℕ → ℕ → Bool
near a b = leb a (b + 1) && leb b (a + 1)

contains-around :
    (a v n : ℕ) → a < n → v < n → n < i32_limit - 1 → contains a (around v n) ≡ near a v
contains-around a v n ha hv small = ground arith

around-lt : (a v n : ℕ) → contains a (around v n) ≡ true → a < n
around-lt a v n h = ground (arith, h)

-- The test of two ids is the test of both coordinates.
same_test :
    (a b x u y v : ℕ)
    → (a ≡ b → (x ≡ u) × (y ≡ v))
    → (x ≡ u → y ≡ v → a ≡ b)
    → (a == b) ≡ ((x == u) && (y == v))
same_test a b x u y v there back = elim (Bool-cases (a == b)) [
  | inl e ↦ let both = there ((==_iff a b).0 e) in ground (arith, e, both.0, both.1)
  | inr e ↦ elim (Bool-cases (x == u)) [
    | inr p ↦ ground (arith, e, p)
    | inl p ↦ elim (Bool-cases (y == v)) [
      | inr q ↦ ground (arith, e, q, p)
      | inl q ↦ ground (arith, e, p, q, back ((==_iff x u).0 p) ((==_iff y v).0 q))
    ]
  ]
]

module _ (env : Env) (g : Grid) (valid : GridValid env g) where
  -- Two cells of the grid have the same id only if they are the same.
  cell_id_injective :
      (x y u v : ℕ)
      → x < g.grid_cols
      → y < g.grid_rows
      → u < g.grid_cols
      → v < g.grid_rows
      → cell_id env g x y ≡ cell_id env g u v
      → (x ≡ u) × (y ≡ v)
  cell_id_injective x y u v hx hy hu hv e = (
    sym (index-mod x y g.grid_cols hx)
        ∙ ap (λ (i : ℕ). i % g.grid_cols) same
        ∙ index-mod u v g.grid_cols hu,
    sym (index-div x y g.grid_cols hx)
        ∙ ap (λ (i : ℕ). i / g.grid_cols) same
        ∙ index-div u v g.grid_cols hu,
  )
    where
      same : x + y * g.grid_cols ≡ u + v * g.grid_cols
      same = omega (arith, e, cell_id-eq env g valid x y hx hy, cell_id-eq env g valid u v hu hv)

  pub cell_id-== :
      (x y u v : ℕ)
      → x < g.grid_cols
      → y < g.grid_rows
      → u < g.grid_cols
      → v < g.grid_rows
      → (cell_id env g x y == cell_id env g u v) ≡ ((x == u) && (y == v))
  cell_id-== x y u v hx hy hu hv =
      same_test _ _ _ _ _ _ (λ e. cell_id_injective x y u v hx hy hu hv e)
        (λ (p : x ≡ u) (q : y ≡ v). ap (λ (i : ℕ). cell_id env g i y) p ∙ ap (cell_id env g u) q)

  module _ (gx gy x' y' : ℕ) (hx : x' < g.grid_cols) (hy : y' < g.grid_rows) where
    contains-other_cells :
        (y : ℕ)
        → y < g.grid_rows
        → (xs : List ℕ) → ((i : ℕ) → contains i xs ≡ true → i < g.grid_cols)
        → contains (cell_id env g x' y') (other_cells env g gx gy y xs)
          ≡ ((y == y') && contains x' xs && not (x' == gx && y' == gy))
    unfolding other_cells
    contains-other_cells y h [] below = ground arith
    contains-other_cells y h (x ∷ xs) below = ground (
      arith,
      contains-other_cells y h xs (λ i k. below i (ground (arith, k))),
      cell_id-== x y x' y' (below x (ground (arith, ==_self x))) h hx hy,
      ==_iff x x',
      ==_iff y y',
    )

    contains-adjacent_rows :
        (ys : List ℕ)
        → ((i : ℕ) → contains i ys ≡ true → i < g.grid_rows)
        → contains (cell_id env g x' y') (adjacent_rows env g gx gy ys)
          ≡ (contains y' ys && contains x' (around gx g.grid_cols) && not (x' == gx && y' == gy))
    unfolding adjacent_rows
    contains-adjacent_rows [] below = refl
    contains-adjacent_rows (y ∷ ys) below =
        contains-append (cell_id env g x' y') (other_cells env g gx gy y (around gx g.grid_cols))
          (adjacent_rows env g gx gy ys)
        ∙ ground (
          arith,
          contains-adjacent_rows ys (λ i k. below i (ground (arith, k))),
          contains-other_cells y (below y (ground (arith, ==_self y))) (around gx g.grid_cols)
              (λ i. around-lt i gx g.grid_cols),
        )

-- In a grid that fits into `int32` and whose ids do not wrap around, `GetAdjacentChannels` ends for
-- the channel of a cell, and of the channels of the grid it lists those of the cells that differ from
-- it by one at most in both directions, without the cell itself.
pub get_adjacent_channels-contains :
    (env : Env) (g : Grid)
    → GridValid env g
    → g.grid_cols < i32_limit - 1
    → g.grid_rows < i32_limit - 1
    → (x y : ℕ) → x < g.grid_cols
    → y < g.grid_rows
    → (ids : List ℕ) × (get_adjacent_channels env g (cell_id env g x y) ≡ some ids)
      × ((x' y' : ℕ)
          → x' < g.grid_cols
          → y' < g.grid_rows
          → contains (cell_id env g x' y') ids
            ≡ (near y' y && near x' x && not (x' == x && y' == y)))
unfolding get_adjacent_channels
get_adjacent_channels-contains env g valid cols rows x y hx hy = (
  adjacent_rows env g x y (around y g.grid_rows),
  rw
      (
        get_adjacent_channels,
        index_of env g valid x y hx hy,
        index-mod x y g.grid_cols hx,
        index-div x y g.grid_cols hx,
      )
      (ground arith),
  λ x' y' hx' hy'.
      contains-adjacent_rows env g valid x y x' y' hx' hy' (around y g.grid_rows)
        (λ i. around-lt i y g.grid_rows)
      ∙ ground (
        arith,
        contains-around y' y g.grid_rows hy' hy rows,
        contains-around x' x g.grid_cols hx' hx cols,
      ),
)
