-- ===== src/Spatial/Cells.antt =====
-- The numbers of the cells of a grid and the ids of their channels (pkg/channeld/spatial.go).
use native.Mathlib.Nat.{
  mul-le-mul_right, add-mul-div_right, add-mul-mod_self_right, div-eq_of_lt, mod-eq_of_lt, mul_comm,
}
use channeld.Base.{ℕ, suc, ◌+◌, ◌-◌, ◌*◌, ◌/◌, ◌%◌, ◌≤◌, ◌<◌, ◌≡◌, ap, ◌∙◌, arith}
use channeld.Ids.{u32_mod}
use channeld.World.Types.{Env}
use channeld.Spatial.{Grid, cell_id}

-- The grid that `LoadConfig` accepts, with channel ids that do not wrap around.
pub record GridValid (env : Env) (g : Grid) : Type 0 where
  pub cols_pos : 0 < g.grid_cols
  pub rows_pos : 0 < g.grid_rows
  pub server_cols_pos : 0 < g.server_cols
  pub server_rows_pos : 0 < g.server_rows
  pub bounded : env.spatial_channel_id_start + g.grid_cols * g.grid_rows ≤ u32_mod

-- A cell of row `y` lies before the end of the grid.
pub index-lt : (x y c r : ℕ) → x < c → y < r → x + y * c < c * r
index-lt x y c r hx hy = omega (arith, mul-le-mul_right {m = suc y} {n = r} c hy, mul_comm r c)

pub index-mod : (x y c : ℕ) → x < c → (x + y * c) % c ≡ x
index-mod x y c hx = add-mul-mod_self_right x y c ∙ mod-eq_of_lt hx

pub index-div : (x y c : ℕ) → x < c → (x + y * c) / c ≡ y
index-div x y c hx =
    add-mul-div_right x y (omega arith) ∙ ap (λ (q : ℕ). q + y) (div-eq_of_lt hx) ∙ omega arith

module _ (env : Env) (g : Grid) (valid : GridValid env g) where
  -- The id of a cell does not wrap around.
  pub cell_id-eq :
      (x y : ℕ)
      → x < g.grid_cols
      → y < g.grid_rows
      → cell_id env g x y ≡ env.spatial_channel_id_start + (x + y * g.grid_cols)
  unfolding cell_id
  cell_id-eq x y hx hy = omega (arith, valid.bounded, index-lt x y g.grid_cols g.grid_rows hx hy)

  -- The index of a channel is that of its cell.
  pub index_of :
      (x y : ℕ)
      → x < g.grid_cols
      → y < g.grid_rows
      → (cell_id env g x y + u32_mod - env.spatial_channel_id_start) % u32_mod ≡ x + y * g.grid_cols
  index_of x y hx hy =
      omega (arith, cell_id-eq x y hx hy, valid.bounded, index-lt x y g.grid_cols g.grid_rows hx hy)
