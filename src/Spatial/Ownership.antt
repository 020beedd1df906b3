-- ===== src/Spatial/Ownership.antt =====
-- The cells that `CreateChannels` takes for a server, and the server index of their regions
-- (pkg/channeld/spatial.go).
use native.Mathlib.Nat.{
  mul-le-mul_right, div-lt_iff_lt-mul, mod-lt, div-add-mod', mul_comm, add_comm,
}
use channeld.Base.{ℕ, zero, suc, ◌+◌, ◌*◌, ◌/◌, ◌%◌, ◌≤◌, ◌<◌, ◌≡◌, refl, sym, ap, ◌∙◌, true, arith}
use channeld.Ids.{u32_mod}
use channeld.World.Types.{Env}
use channeld.Spatial.{Grid, server_index_of}
use channeld.Spatial.Cells.{GridValid, index-lt, index-mod, index-div}
use channeld.Spatial.Loops.{contains_cell, each_row-found, each_row-reaches}
use channeld.Spatial.Servers.{server_grid_cols, server_grid_rows, server_cells}

-- The servers share the columns and the rows of the grid without a rest.
pub record Divided (env : Env) (g : Grid) : Type 0 where
  pub valid : GridValid env g
  pub cols : g.grid_cols ≡ server_grid_cols g * g.server_cols
  pub rows : g.grid_rows ≡ server_grid_rows g * g.server_rows
  pub servers : g.server_cols * g.server_rows < u32_mod

-- The quotient of a product's part is below the other factor.
part-lt : (x c n m : ℕ) → n ≡ c * m → x < n → x / c < m
part-lt x zero n m e h = omega (arith, e, h)
part-lt x (suc c) n m e h =
    (div-lt_iff_lt-mul {k = suc c} {x = x} {y = m} (omega arith)).1
      (omega (arith, e, h, mul_comm (suc c) m))

factor_pos : (c m n : ℕ) → n ≡ c * m → 0 < n → 0 < c
factor_pos zero m n e h = omega (arith, e, h)
factor_pos (suc c) m n e h = omega arith

pair_eq : {a b c d : ℕ} → a ≡ b → c ≡ d → ◌≡◌ {A = ℕ × ℕ} (a, c) (b, d)
pair_eq p q = λ i. (p i, q i)

block-lt : (s u c m : ℕ) → s < m → u < c → s * c + u < c * m
block-lt s u c m hs hu = omega (arith, index-lt u s c m hu hs)

module _ (env : Env) (g : Grid) (d : Divided env g) where
  pub cols-le : g.grid_cols ≤ u32_mod
  cols-le = omega (
    arith,
    d.valid.bounded,
    mul-le-mul_right {m = 1} {n = g.grid_rows} g.grid_cols d.valid.rows_pos,
    mul_comm g.grid_cols g.grid_rows,
  )

  pub rows-le : g.grid_rows ≤ u32_mod
  rows-le = omega (
    arith,
    d.valid.bounded,
    mul-le-mul_right {m = 1} {n = g.grid_cols} g.grid_rows d.valid.cols_pos,
  )

  module _ (s : ℕ) (hs : s < g.server_cols * g.server_rows) where
    -- The first and the second coordinate of a server.
    pub server_x-lt : s % g.server_cols < g.server_cols
    server_x-lt = mod-lt s d.valid.server_cols_pos

    pub server_y-lt : s / g.server_cols < g.server_rows
    server_y-lt = part-lt s g.server_cols (g.server_cols * g.server_rows) g.server_rows refl hs

    cell_x-lt :
        (u : ℕ) → u < server_grid_cols g → s % g.server_cols * server_grid_cols g + u < g.grid_cols
    cell_x-lt u h = omega (
      arith,
      block-lt (s % g.server_cols) u (server_grid_cols g) g.server_cols server_x-lt h,
      d.cols,
    )

    cell_y-lt :
        (v : ℕ) → v < server_grid_rows g → s / g.server_cols * server_grid_rows g + v < g.grid_rows
    cell_y-lt v h = omega (
      arith,
      block-lt (s / g.server_cols) v (server_grid_rows g) g.server_rows server_y-lt h,
      d.rows,
    )

    -- A cell of the block of a server belongs to the server.
    server_index_of-block :
        (u v : ℕ)
        → u < server_grid_cols g
        → v < server_grid_rows g
        → server_index_of g
            (s % g.server_cols * server_grid_cols g + u)
            (s / g.server_cols * server_grid_rows g + v)
          ≡ s
    unfolding server_index_of
    server_index_of-block u v hu hv = omega (
      arith,
      index-div u (s % g.server_cols) (server_grid_cols g) hu,
      index-div v (s / g.server_cols) (server_grid_rows g) hv,
      div-add-mod' s g.server_cols,
      ap (λ (i : ℕ). i / server_grid_cols g) (add_comm (s % g.server_cols * server_grid_cols g) u),
      ap (λ (i : ℕ). i / server_grid_rows g) (add_comm (s / g.server_cols * server_grid_rows g) v),
      ap (λ (i : ℕ). i * g.server_cols)
          (ap (λ (i : ℕ). i / server_grid_rows g)
              (add_comm (s / g.server_cols * server_grid_rows g) v)
            ∙ index-div v (s / g.server_cols) (server_grid_rows g) hv),
      hs,
      d.servers,
    )

    -- A cell of a server lies in the grid and belongs to the server.
    pub server_cells-found :
        (x y : ℕ)
        → contains_cell x y (server_cells g s) ≡ true
        → (x < g.grid_cols) × (y < g.grid_rows) × (server_index_of g x y ≡ s)
    unfolding server_cells
    server_cells-found x y h =
        let (u, v, small, low, high, at) =
          each_row-found x y (server_grid_rows g) (server_grid_cols g) 0
            (λ (a b : ℕ). (
              (s % g.server_cols * server_grid_cols g + a) % u32_mod,
              (s / g.server_cols * server_grid_rows g + b) % u32_mod,
            ))
            h in
        let at_x : s % g.server_cols * server_grid_cols g + u ≡ x =
          omega (arith, ap (λ (p : ℕ × ℕ). p.0) at, cell_x-lt u small, cols-le) in
        let at_y : s / g.server_cols * server_grid_rows g + v ≡ y =
          omega (arith, ap (λ (p : ℕ × ℕ). p.1) at, cell_y-lt v (omega (arith, high)), rows-le) in
        (
          omega (arith, at_x, cell_x-lt u small),
          omega (arith, at_y, cell_y-lt v (omega (arith, high))),
          sym (ap (λ (i : ℕ). server_index_of g i y) at_x)
              ∙ sym (ap (server_index_of g (s % g.server_cols * server_grid_cols g + u)) at_y)
              ∙ server_index_of-block u v small (omega (arith, high)),
        )

    -- A cell of the grid is among those of the server that it belongs to.
    pub server_cells-reaches :
        (x y : ℕ)
        → x < g.grid_cols
        → y < g.grid_rows
        → server_index_of g x y ≡ s
        → contains_cell x y (server_cells g s) ≡ true
    unfolding server_cells server_index_of
    server_cells-reaches x y hx hy owned =
        let sx-lt = part-lt x (server_grid_cols g) g.grid_cols g.server_cols d.cols hx in
        let sy-lt = part-lt y (server_grid_rows g) g.grid_rows g.server_rows d.rows hy in
        let index : s ≡ x / server_grid_cols g + y / server_grid_rows g * g.server_cols = omega (
          arith,
          owned,
          d.servers,
          index-lt (x / server_grid_cols g) (y / server_grid_rows g) g.server_cols g.server_rows
              sx-lt sy-lt,
        ) in
        let at_x : s % g.server_cols ≡ x / server_grid_cols g =
          ap (λ (i : ℕ). i % g.server_cols) index
          ∙ index-mod (x / server_grid_cols g) (y / server_grid_rows g) g.server_cols sx-lt in
        let at_y : s / g.server_cols ≡ y / server_grid_rows g =
          ap (λ (i : ℕ). i / g.server_cols) index
          ∙ index-div (x / server_grid_cols g) (y / server_grid_rows g) g.server_cols sx-lt in
        each_row-reaches x y (server_grid_rows g) (server_grid_cols g) 0 (x % server_grid_cols g)
          (y % server_grid_rows g)
          (λ (a b : ℕ). (
            (s % g.server_cols * server_grid_cols g + a) % u32_mod,
            (s / g.server_cols * server_grid_rows g + b) % u32_mod,
          ))
          (mod-lt x
            (factor_pos (server_grid_cols g) g.server_cols g.grid_cols d.cols d.valid.cols_pos))
          (omega arith)
          (omega (
            arith,
            mod-lt y
                (factor_pos (server_grid_rows g) g.server_rows g.grid_rows d.rows d.valid.rows_pos),
          ))
          (pair_eq
            (ap (λ (i : ℕ). (i * server_grid_cols g + x % server_grid_cols g) % u32_mod) at_x
              ∙ omega (arith, div-add-mod' x (server_grid_cols g), hx, cols-le))
            (ap (λ (i : ℕ). (i * server_grid_rows g + y % server_grid_rows g) % u32_mod) at_y
              ∙ omega (arith, div-add-mod' y (server_grid_rows g), hy, rows-le)))
