-- ===== src/Examples/Spatial.antt =====
-- Examples of the spatial grid: 4 columns and 2 rows for two servers, side by side, and one of 3
-- columns.
use channeld.Base.{
  ℕ, ◌+◌, ◌-◌, ◌*◌, ◌/◌, ◌%◌, ◌≤◌, ◌<◌, ◌≡◌, ◌↔◌, refl, true, not, ◌&&◌, none, some, List, [], ◌∷◌,
  ◌==◌, arith, contains, ltb,
}
use channeld.Base.Int.{pos}
use channeld.World.Types.{World, CreateChannelMessage}
use channeld.World.Access.{spatial_type, is_closing}
use channeld.Channel.{create_channel_with_id}
use channeld.Handlers.Lifecycle.{init_data}
use channeld.Spatial.{Floats, Grid, cell_id, region_of, get_adjacent_channels, cells_per_server}
use channeld.Spatial.Cells.{GridValid}
use channeld.Spatial.Adjacent.{near, get_adjacent_channels-contains}
use channeld.Spatial.Ownership.{Divided}
use channeld.Spatial.Allocation.{Exact, cell_ids-server}
use channeld.Spatial.Uneven.{create_channels-uneven}
use channeld.Spatial.Owned.{Owned, create_each-Owned}
use channeld.Spatial.Servers.{
  server_grid_cols, server_cells, cell_ids, init_server_connections, next_server_index,
  first_vacant,
}
use channeld.Spatial.Creating.{create_channels, create_each, channels, error}
use channeld.Examples.{env, world}

-- Whole numbers in place of the floating-point ones.
abbrev pub whole : Floats
whole = record {
  cell_of = λ x offset size. pos ((x - offset) / size);
  times = λ n size. n * size;
  plus = λ x y. x + y;
  is_positive = ltb 0;
  zero_float = 0;
  min_y = 0;
  max_y = 0;
}

abbrev pub grid : Grid
grid = record {
  grid_width = 50;
  grid_height = 50;
  world_offset_x = 0;
  world_offset_z = 0;
  grid_cols = 4;
  grid_rows = 2;
  server_cols = 2;
  server_rows = 1;
  server_interest_border_size = 1;
}

abbrev uneven : Grid
uneven = record grid { grid_cols = 3; server_cols = 2 }

-- The second server creates its channels.
abbrev second_world : World
second_world = record world { server_connections = some 1 ∷ none ∷ [] }

abbrev plain_message : CreateChannelMessage
plain_message = record {
  channel_type = spatial_type;
  metadata = [];
  sub_options = none;
  content = none;
  merge_options = none;
}

uneven_bound : uneven.server_cols * server_grid_cols uneven ≤ 4294967296
unfolding cells_per_server
uneven_bound = omega arith

second_place :
    next_server_index (init_server_connections uneven second_world) % uneven.server_cols
    ≡ uneven.server_cols - 1
unfolding next_server_index init_server_connections first_vacant is_closing
second_place = refl

whole-Exact : (g : Grid) → g.grid_width ≡ 50 → g.grid_height ≡ 50 → Exact whole g
whole-Exact g w h = record {
  cols = λ n small. ground (arith, w);
  rows = λ n small. ground (arith, h);
}

grid-GridValid : GridValid env grid
grid-GridValid = record {
  cols_pos = omega arith;
  rows_pos = omega arith;
  server_cols_pos = omega arith;
  server_rows_pos = omega arith;
  bounded = omega arith;
}

grid-Divided : Divided env grid
unfolding cells_per_server
grid-Divided = record { valid = grid-GridValid; cols = refl; rows = refl; servers = omega arith }

get_adjacent_channels-contains_example :
    (ids : List ℕ) × (get_adjacent_channels env grid (cell_id env grid 1 0) ≡ some ids)
    × ((x' y' : ℕ)
        → x' < grid.grid_cols
        → y' < grid.grid_rows
        → contains (cell_id env grid x' y') ids
          ≡ (near y' 0 && near x' 1 && not (x' == 1 && y' == 0)))
get_adjacent_channels-contains_example =
    get_adjacent_channels-contains env grid grid-GridValid (omega arith) (omega arith) 1 0
      (omega arith) (omega arith)

cell_ids-server_example :
    (ids : List ℕ) × (cell_ids whole env grid (server_cells grid 1) ≡ some ids)
    × ((x y : ℕ)
        → x < grid.grid_cols
        → y < grid.grid_rows
        → (contains (cell_id env grid x y) ids ≡ true)
          ↔ ((region_of whole env grid x y).server_index ≡ 1))
cell_ids-server_example =
    cell_ids-server whole env grid 1 (whole-Exact grid refl refl) grid-Divided (omega arith)

create_channels-uneven_example :
    create_channels whole env uneven second_world 1 plain_message
    ≡ error (init_server_connections uneven second_world)
create_channels-uneven_example =
    create_channels-uneven whole env uneven second_world 1 plain_message
      (whole-Exact uneven refl refl) (omega arith) (omega arith) (omega arith) (omega arith)
      uneven_bound second_place

-- What the creation of the one channel 4 leaves.
abbrev created_world : World
created_world =
    init_data env (create_channel_with_id env world 4 spatial_type (some 1)).0 10 none none

creates_4 : create_each env world 1 plain_message (4 ∷ []) ≡ channels created_world (10 ∷ [])
unfolding create_each create_channel_with_id
creates_4 = refl

create_each-Owned_example : Owned 1 created_world 4
create_each-Owned_example =
    create_each-Owned env 1 (4 ∷ []) world created_world plain_message (10 ∷ []) 4 creates_4 refl
