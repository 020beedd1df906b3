-- ===== src/Spatial/Servers.antt =====
-- The connections of the spatial servers, and the cells of each of them (pkg/channeld/spatial.go). `g`
-- is the grid of the controller.
use channeld.Base.{
  ℕ, zero, suc, ◌+◌, ◌-◌, ◌*◌, ◌/◌, ◌%◌, Bool, true, Option, none, some, List, [], ◌∷◌, ◌++◌, ltb,
  if◌then◌else◌,
}
use channeld.Ids.{u32_mod}
use channeld.World.Types.{ConnRef, World, Env, SpatialInfo}
use channeld.World.Access.{is_closing}
use channeld.Spatial.{Floats, Grid, get_channel_id_no_offset, cells_per_server, each_row}

-- `ServerCols * ServerRows`.
abbrev pub server_count : Grid → ℕ
server_count g = g.server_cols * g.server_rows % u32_mod

abbrev pub no_connections : ℕ → List (Option ConnRef)
no_connections zero = []
no_connections (suc n) = none ∷ no_connections n

-- `initServerConnections`, where an empty slice stands for the nil one.
unfoldable pub init_server_connections : Grid → World → World
init_server_connections g w = elim w.server_connections [
  | [] ↦ record w { server_connections = no_connections (server_count g) }
  | _ ∷ _ ↦ w
]

-- Whether no connection, or one that is closing, is in a place.
abbrev pub is_vacant : World → Option ConnRef → Bool
is_vacant w none = true
is_vacant w (some c) = is_closing w c

unfoldable pub first_vacant : World → List (Option ConnRef) → ℕ
first_vacant w [] = 0
first_vacant w (conn ∷ rest) = if is_vacant w conn then 0 else suc (first_vacant w rest)

-- `nextServerIndex`.
unfoldable pub next_server_index : World → ℕ
unfolding first_vacant
next_server_index w = first_vacant w w.server_connections

unfoldable pub reset_closing : World → List (Option ConnRef) → List (Option ConnRef)
reset_closing w [] = []
reset_closing w (none ∷ rest) = none ∷ reset_closing w rest
reset_closing w (some c ∷ rest) = (if is_closing w c then none else some c) ∷ reset_closing w rest

-- `Tick`.
unfoldable pub tick : Grid → World → World
unfolding init_server_connections reset_closing
tick g w =
    let w' = init_server_connections g w in
    record w' { server_connections = reset_closing w' w'.server_connections }

-- The point of a cell that the world offset does not move.
abbrev pub cell_point : Floats → Grid → ℕ → ℕ → SpatialInfo
cell_point fl g x y = record {
  x = fl.times x g.grid_width;
  y = fl.zero_float;
  z = fl.times y g.grid_height;
}

abbrev pub server_grid_cols : Grid → ℕ
server_grid_cols g = cells_per_server g.grid_cols g.server_cols

abbrev pub server_grid_rows : Grid → ℕ
server_grid_rows g = cells_per_server g.grid_rows g.server_rows

-- The cells of a server, row by row; sums and products are those of `uint32`.
unfoldable pub server_cells : Grid → ℕ → List (ℕ × ℕ)
unfolding each_row
server_cells g s = each_row (server_grid_rows g) (server_grid_cols g) 0 (λ x y. (
  (s % g.server_cols * server_grid_cols g + x) % u32_mod,
  (s / g.server_cols * server_grid_rows g + y) % u32_mod,
))

-- The channel ids of cells; `none` is the error for one outside the grid.
unfoldable pub cell_ids : Floats → Env → Grid → List (ℕ × ℕ) → Option (List ℕ)
unfolding get_channel_id_no_offset
cell_ids fl env g [] = some []
cell_ids fl env g ((x, y) ∷ cells) =
    elim (get_channel_id_no_offset fl env g (cell_point fl g x y)) [
      | none ↦ none
      | some id ↦ elim (cell_ids fl env g cells) [ none ↦ none | some ids ↦ some (id ∷ ids) ]
    ]

-- The cells that border on those of a server, in the order in which it subscribes to them.
unfoldable pub border_cells : Grid → ℕ → List (ℕ × ℕ)
unfolding each_row
border_cells g s =
    let sx = s % g.server_cols in
    let sy = s / g.server_cols in
    let cols = server_grid_cols g in
    let rows = server_grid_rows g in
    let border = g.server_interest_border_size in
    (if ltb 0 sx
      then each_row rows border 0
          (λ x y. ((sx * cols + u32_mod - (x + 1)) % u32_mod, (sy * rows + y) % u32_mod))
      else [])
    ++ (if ltb sx (g.server_cols - 1)
        then each_row rows border 0
            (λ x y. (((sx + 1) * cols + x) % u32_mod, (sy * rows + y) % u32_mod))
        else [])
    ++ (if ltb 0 sy
        then each_row border cols 0
            (λ x y. ((sx * cols + x) % u32_mod, (sy * rows + u32_mod - (y + 1)) % u32_mod))
        else [])
    ++ (if ltb sy (g.server_rows - 1)
        then each_row border cols 0
            (λ x y. ((sx * cols + x) % u32_mod, ((sy + 1) * rows + y) % u32_mod))
        else [])
