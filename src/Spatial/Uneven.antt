-- ===== src/Spatial/Uneven.antt =====
-- A grid whose columns the servers cannot share evenly (pkg/channeld/spatial.go).
use native.Mathlib.Nat.{mod-lt, div-add-mod, mul_comm, mod-le}
use channeld.Base.{
  ℕ, zero, suc, ◌+◌, ◌-◌, ◌*◌, ◌/◌, ◌%◌, ◌≤◌, ◌<◌, ◌≡◌, refl, ap, true, ◌&&◌, none, List, [], ◌∷◌,
  ◌==◌, Bool-cases, inl, inr, arith,
}
use channeld.Ids.{u32_mod}
use channeld.World.Types.{ConnRef, Env, World, CreateChannelMessage}
use channeld.Spatial.{Floats, Grid, cells_per_server}
use channeld.Spatial.Loops.{contains_cell, each_row-reaches}
use channeld.Spatial.Allocation.{Exact, get_channel_id-cell_point}
use channeld.Spatial.Servers.{
  server_grid_cols, server_grid_rows, server_cells, cell_ids, init_server_connections,
  next_server_index,
}
use channeld.Spatial.Creating.{create_channels, error}

module _ (fl : Floats) (env : Env) (g : Grid) (exact : Exact fl g) where
  -- One cell past the last column is enough for an error.
  cell_ids-outside :
      (cells : List (ℕ × ℕ)) (x y : ℕ)
      → g.grid_cols ≤ x
      → x < u32_mod
      → y < u32_mod
      → contains_cell x y cells ≡ true
      → cell_ids fl env g cells ≡ none
  unfolding cell_ids
  cell_ids-outside [] x y far hx hy h = ground (arith, h)
  cell_ids-outside ((u, v) ∷ cells) x y far hx hy h = elim (Bool-cases (u == x && v == y)) [
    | inl e ↦
        let at_x : u ≡ x = ground (arith, e) in
        let at_y : v ≡ y = ground (arith, e) in
        ground (
          arith,
          get_channel_id-cell_point fl env g exact u v (omega (arith, at_x)) (omega (arith, at_y)),
          at_x,
          far,
        )
    | inr e ↦ ground (arith, cell_ids-outside cells x y far hx hy (ground (arith, e, h)))
  ]

cells_per_server-pos : (n m : ℕ) → 0 < n → 0 < m → 0 < cells_per_server n m
unfolding cells_per_server
cells_per_server-pos n m hn hm = ground (arith, div-add-mod n m, mul_comm m (n / m))

-- Where a rest is left, the servers together have more columns than the grid.
cells_per_server-past : (n m : ℕ) → 0 < m → 0 < n % m → n < m * cells_per_server n m
unfolding cells_per_server
cells_per_server-past n m hm rest = omega (
  arith,
  ap (λ (i : ℕ). m * i) quotient,
  div-add-mod n m,
  mod-lt n hm,
  mul_comm m (n / m + 1),
  mul_comm m (n / m),
)
  where
    quotient : cells_per_server n m ≡ n / m + 1
    quotient = ground (arith, rest)

last_cell-eq : (m c : ℕ) → 0 < m → 0 < c → (m - 1) * c + (c - 1) + 1 ≡ m * c
last_cell-eq zero c hm hc = omega (arith, hm)
last_cell-eq (suc m) c hm hc = omega (arith, hc, ap (λ (i : ℕ). i * c) pred)
  where
    pred : suc m - 1 ≡ m
    pred = omega arith

-- The ids of a server in the last column are an error.
cell_ids-uneven :
    (fl : Floats) (env : Env) (g : Grid) (s : ℕ)
    → Exact fl g
    → 0 < g.grid_rows
    → 0 < g.server_rows
    → 0 < g.server_cols
    → 0 < g.grid_cols % g.server_cols
    → g.server_cols * server_grid_cols g ≤ u32_mod
    → s % g.server_cols ≡ g.server_cols - 1
    → cell_ids fl env g (server_cells g s) ≡ none
unfolding server_cells
cell_ids-uneven fl env g s exact rows server_rows servers rest bounded last =
    let gc-pos : 0 < server_grid_cols g =
      cells_per_server-pos g.grid_cols g.server_cols
        (omega (arith, rest, mod-le g.grid_cols g.server_cols)) servers in
    let past = cells_per_server-past g.grid_cols g.server_cols servers rest in
    let x-eq : s % g.server_cols * server_grid_cols g + (server_grid_cols g - 1)
        ≡ (g.server_cols - 1) * server_grid_cols g + (server_grid_cols g - 1) =
      ap (λ (i : ℕ). i * server_grid_cols g + (server_grid_cols g - 1)) last in
    let end = last_cell-eq g.server_cols (server_grid_cols g) servers gc-pos in
    cell_ids-outside fl env g exact (server_cells g s)
      ((s % g.server_cols * server_grid_cols g + (server_grid_cols g - 1)) % u32_mod)
      ((s / g.server_cols * server_grid_rows g + 0) % u32_mod)
      (omega (arith, x-eq, end, past, bounded)) (omega arith) (omega arith)
      (each_row-reaches _ _ (server_grid_rows g) (server_grid_cols g) 0 (server_grid_cols g - 1) 0 _
        (omega (arith, gc-pos)) (omega arith)
        (omega (arith, cells_per_server-pos g.grid_rows g.server_rows rows server_rows)) refl)

-- If the columns of the grid cannot be shared evenly, a server that would get the last columns gets
-- no channel: `CreateChannels` returns an error whatever the message is. The numbers of rows and of
-- servers are positive, the columns of all servers together do not wrap around, and the products of
-- a cell's coordinates and size are exact.
pub create_channels-uneven :
    (fl : Floats) (env : Env) (g : Grid) (w : World) (c : ConnRef) (msg : CreateChannelMessage)
    → Exact fl g
    → 0 < g.grid_rows
    → 0 < g.server_rows
    → 0 < g.server_cols
    → 0 < g.grid_cols % g.server_cols
    → g.server_cols * server_grid_cols g ≤ u32_mod
    → next_server_index (init_server_connections g w) % g.server_cols ≡ g.server_cols - 1
    → create_channels fl env g w c msg ≡ error (init_server_connections g w)
unfolding create_channels
create_channels-uneven fl env g w c msg exact rows server_rows server_cols rest bounded last =
    ground (
      arith,
      cell_ids-uneven fl env g (next_server_index (init_server_connections g w)) exact rows
          server_rows server_cols rest bounded last,
    )
