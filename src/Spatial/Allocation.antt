-- ===== src/Spatial/Allocation.antt =====
-- The channel ids that `CreateChannels` (pkg/channeld/spatial.go) allocates to a server.
use channeld.Base.{
  ℕ, ◌*◌, ◌≤◌, ◌<◌, ◌≡◌, refl, sym, ◌∙◌, true, some, List, [], ◌∷◌, ◌↔◌, contains, arith, ==_self,
}
use channeld.Base.Int.{pos}
use channeld.Ids.{u32_mod}
use channeld.World.Types.{Env}
use channeld.Spatial.{
  Floats, Grid, cell_id, get_channel_id_no_offset, get_channel_id_with_offset, channel_at,
  region_of,
}
use channeld.Spatial.Cells.{GridValid}
use channeld.Spatial.Adjacent.{cell_id-==}
use channeld.Spatial.Loops.{contains_cell}
use channeld.Spatial.Ownership.{Divided, cols-le, rows-le, server_cells-found, server_cells-reaches}
use channeld.Spatial.Servers.{server_cells, cell_ids, cell_point}

-- What the controller relies on: the product of a `uint32` and the size of a cell, divided by this
-- size, is exact in `float64`.
pub record Exact (fl : Floats) (g : Grid) : Type 0 where
  pub cols :
      (n : ℕ)
      → n < u32_mod
      → fl.cell_of (fl.times n g.grid_width) fl.zero_float g.grid_width ≡ pos n
  pub rows :
      (n : ℕ)
      → n < u32_mod
      → fl.cell_of (fl.times n g.grid_height) fl.zero_float g.grid_height ≡ pos n

module _ (fl : Floats) (env : Env) (g : Grid) (exact : Exact fl g) where
  -- The point of a cell is in its channel.
  pub get_channel_id-cell_point :
      (x y : ℕ)
      → x < u32_mod
      → y < u32_mod
      → get_channel_id_no_offset fl env g (cell_point fl g x y) ≡ channel_at env g (pos x) (pos y)
  unfolding get_channel_id_no_offset get_channel_id_with_offset
  get_channel_id-cell_point x y hx hy = rw (exact.cols x hx, exact.rows y hy) refl

  module _ (valid : GridValid env g) (cols-le : g.grid_cols ≤ u32_mod)
      (rows-le : g.grid_rows ≤ u32_mod) where
    -- The ids of cells of the grid, in which every channel is found whose cell is there.
    cell_ids-contains :
        (cells : List (ℕ × ℕ))
        → ((x y : ℕ) → contains_cell x y cells ≡ true → (x < g.grid_cols) × (y < g.grid_rows))
        → (ids : List ℕ) × (cell_ids fl env g cells ≡ some ids)
          × ((x y : ℕ)
              → x < g.grid_cols
              → y < g.grid_rows
              → contains (cell_id env g x y) ids ≡ contains_cell x y cells)
    unfolding cell_ids
    cell_ids-contains [] inside = ([], refl, λ x y hx hy. refl)
    cell_ids-contains ((u, v) ∷ cells) inside =
        let (hu, hv) = inside u v (ground (arith, ==_self u, ==_self v)) in
        let (ids, eq, found) = cell_ids-contains cells (λ x y h. inside x y (ground (arith, h))) in
        (
          cell_id env g u v ∷ ids,
          ground (
            arith,
            get_channel_id-cell_point u v (omega (arith, hu, cols-le)) (omega (arith, hv, rows-le)),
            eq,
            hu,
            hv,
          ),
          λ x y hx hy. ground (arith, found x y hx hy, cell_id-== env g valid u v x y hu hv hx hy),
        )

-- On a grid that the servers share without a rest, where the ids do not wrap around and the products
-- of a cell's coordinates and size are exact, `CreateChannels` computes the ids for each server
-- without an error, and among them is the channel of a cell of the grid just where the region of the
-- cell that `GetRegions` gives carries the index of the server.
pub cell_ids-server :
    (fl : Floats) (env : Env) (g : Grid) (s : ℕ)
    → Exact fl g
    → Divided env g
    → s < g.server_cols * g.server_rows
    → (ids : List ℕ) × (cell_ids fl env g (server_cells g s) ≡ some ids)
      × ((x y : ℕ)
          → x < g.grid_cols
          → y < g.grid_rows
          → (contains (cell_id env g x y) ids ≡ true) ↔ ((region_of fl env g x y).server_index ≡ s))
cell_ids-server fl env g s exact d hs =
    let (ids, eq, found) =
      cell_ids-contains fl env g exact d.valid (cols-le env g d) (rows-le env g d)
        (server_cells g s)
        (λ x y h. let (hx, hy, own) = server_cells-found env g d s hs x y h in (hx, hy)) in
    (
      ids,
      eq,
      λ x y hx hy. (
        λ h. (server_cells-found env g d s hs x y (sym (found x y hx hy) ∙ h)).2,
        λ own. found x y hx hy ∙ server_cells-reaches env g d s hs x y hx hy own,
      ),
    )
