-- ===== src/Spatial.antt =====
-- The grid of `StaticGrid2DSpatialController` (pkg/channeld/spatial.go): which channel a point is
-- in, which server a channel belongs to, and which channels are adjacent.
pub mod Cells
pub mod Adjacent
pub mod Loops
pub mod Servers
pub mod Ownership
pub mod Allocation
pub mod Uneven
pub mod Owned
pub mod Creating
pub mod Handover
pub mod Interest
use channeld.Base.{
  ℕ, zero, suc, ◌+◌, ◌-◌, ◌*◌, ◌/◌, ◌%◌, Bool, true, false, not, ◌&&◌, ◌||◌, Option, none, some,
  List, [], ◌∷◌, ◌++◌, ◌==◌, ltb, if◌then◌else◌,
}
use channeld.Base.Int.{ℤ, pos, negsuc, sub_ℕ, ltb_ℤ}
use channeld.Ids.{u32_mod}
use channeld.World.Types.{Env, Float, SpatialInfo, SpatialRegion}

-- The arithmetic of the processor on them.
pub record Floats : Type 0 where
  -- `int(math.Floor((x - offset) / size))`.
  pub cell_of : (x offset size : Float) → ℤ
  -- `float64(n) * size` and `x + y`.
  pub times : ℕ → Float → Float
  pub plus : Float → Float → Float
  pub is_positive : Float → Bool
  pub zero_float : Float
  pub min_y : Float
  pub max_y : Float

-- The fields that are read from the config file; all but the first four are of type `uint32`.
pub record Grid : Type 0 where
  pub grid_width : Float
  pub grid_height : Float
  pub world_offset_x : Float
  pub world_offset_z : Float
  pub grid_cols : ℕ
  pub grid_rows : ℕ
  pub server_cols : ℕ
  pub server_rows : ℕ
  pub server_interest_border_size : ℕ

-- `LoadConfig` after `json.Unmarshal`, whose error is the outer `none`.
unfoldable pub load_config : Floats → Option Grid → Option Grid
load_config fl none = none
load_config fl (some g) =
    if not (fl.is_positive g.grid_width && fl.is_positive g.grid_height)
    then none
    else if g.grid_cols == 0 || g.grid_rows == 0
    then none
    else if g.server_cols == 0 || g.server_rows == 0
    then none
    else if g.server_interest_border_size == 0
    then none
    else some g

-- The channel of a cell of the grid.
unfoldable pub cell_id : Env → Grid → ℕ → ℕ → ℕ
cell_id env g x y = ((x + y * g.grid_cols) % u32_mod + env.spatial_channel_id_start) % u32_mod

abbrev pub channel_at : Env → Grid → ℤ → ℤ → Option ℕ
channel_at env g (negsuc x) y = none
channel_at env g (pos x) (negsuc y) = none
channel_at env g (pos x) (pos y) =
    if ltb x g.grid_cols && ltb y g.grid_rows then some (cell_id env g x y) else none

-- `GetChannelIdWithOffset`.
unfoldable pub get_channel_id_with_offset :
    Floats → Env → Grid → SpatialInfo → Float → Float → Option ℕ
get_channel_id_with_offset fl env g info offset_x offset_z =
    channel_at env g (fl.cell_of info.x offset_x g.grid_width)
      (fl.cell_of info.z offset_z g.grid_height)

unfoldable pub get_channel_id : Floats → Env → Grid → SpatialInfo → Option ℕ
unfolding get_channel_id_with_offset
get_channel_id fl env g info =
    get_channel_id_with_offset fl env g info g.world_offset_x g.world_offset_z

unfoldable pub get_channel_id_no_offset : Floats → Env → Grid → SpatialInfo → Option ℕ
unfolding get_channel_id_with_offset
get_channel_id_no_offset fl env g info =
    get_channel_id_with_offset fl env g info fl.zero_float fl.zero_float

-- How many cells a server has along an axis: the quotient, and one more where a rest is left.
unfoldable pub cells_per_server : ℕ → ℕ → ℕ
cells_per_server cells servers =
    if ltb 0 (cells % servers) then cells / servers + 1 else cells / servers

-- `ServerIndex` of the region of a cell.
unfoldable pub server_index_of : Grid → ℕ → ℕ → ℕ
unfolding cells_per_server
server_index_of g x y =
    (x / cells_per_server g.grid_cols g.server_cols
      + y / cells_per_server g.grid_rows g.server_rows * g.server_cols)
    % u32_mod

abbrev pub region_of : Floats → Env → Grid → ℕ → ℕ → SpatialRegion
region_of fl env g x y = record {
  min = record {
    x = fl.plus g.world_offset_x (fl.times x g.grid_width);
    y = fl.min_y;
    z = fl.plus g.world_offset_z (fl.times y g.grid_height);
  };
  max = record {
    x = fl.plus g.world_offset_x (fl.times (x + 1) g.grid_width);
    y = fl.max_y;
    z = fl.plus g.world_offset_z (fl.times (y + 1) g.grid_height);
  };
  channel_id = (env.spatial_channel_id_start + (x + y * g.grid_cols) % u32_mod) % u32_mod;
  server_index = server_index_of g x y;
}

-- `n` values of a loop, from `i` on.
unfoldable pub each {ℓ} : {A : Type ℓ} → ℕ → ℕ → (ℕ → A) → List A
each zero i f = []
each (suc n) i f = f i ∷ each n (suc i) f

-- Two nested loops, the rows outside.
unfoldable pub each_row {ℓ} : {A : Type ℓ} → ℕ → ℕ → ℕ → (ℕ → ℕ → A) → List A
unfolding each
each_row zero cols y f = []
each_row (suc n) cols y f = each cols 0 (λ x. f x y) ++ each_row n cols (suc y) f

-- `GetRegions`. The loops reach the indices of the slice one after another; where the length
-- `GridCols * GridRows` wraps around, the slice is too short and the panic is `none`.
unfoldable pub get_regions : Floats → Env → Grid → Option (List SpatialRegion)
unfolding each_row
get_regions fl env g =
    if ltb (g.grid_cols * g.grid_rows) u32_mod
    then some (each_row g.grid_rows g.grid_cols 0 (region_of fl env g))
    else none

-- One more than the greatest `int32`.
abbrev pub i32_limit : ℕ
i32_limit = 2_147_483_648

-- The values that the loop `for x := v - 1; x <= v + 1; x++` keeps, those from 0 to `n - 1`, where
-- all of these are of type `int32` and converted from `uint32`. For the greatest and the least
-- `int32` one of the bounds wraps around, and the loop is not entered. -1 has only 0 above it.
abbrev pub around : ℕ → ℕ → List ℕ
around v n =
    if ltb i32_limit n
    then []
    else if v + 1 == u32_mod
    then if ltb 0 n then 0 ∷ [] else []
    else if ltb (i32_limit - 2) v
    then []
    else (if ltb 0 v && ltb (v - 1) n then (v - 1) ∷ [] else [])
      ++ (if ltb v n then v ∷ [] else [])
      ++ (if ltb (v + 1) n then (v + 1) ∷ [] else [])

-- Where `v + 1` is the greatest `int32`, the loop does not end: no `int32` is above it.
abbrev pub loops_forever : ℕ → Bool
loops_forever v = v + 2 == i32_limit

unfoldable pub other_cells : Env → Grid → ℕ → ℕ → ℕ → List ℕ → List ℕ
unfolding cell_id
other_cells env g gx gy y [] = []
other_cells env g gx gy y (x ∷ xs) =
    let rest = other_cells env g gx gy y xs in
    if x == gx && y == gy then rest else cell_id env g x y ∷ rest

unfoldable pub adjacent_rows : Env → Grid → ℕ → ℕ → List ℕ → List ℕ
unfolding other_cells
adjacent_rows env g gx gy [] = []
adjacent_rows env g gx gy (y ∷ ys) =
    other_cells env g gx gy y (around gx g.grid_cols) ++ adjacent_rows env g gx gy ys

abbrev pub is_empty_list : List ℕ → Bool
is_empty_list [] = true
is_empty_list (x ∷ xs) = false

-- `GetAdjacentChannels`; `none` is a loop that does not end.
unfoldable pub get_adjacent_channels : Env → Grid → ℕ → Option (List ℕ)
unfolding adjacent_rows
get_adjacent_channels env g id =
    let index = (id + u32_mod - env.spatial_channel_id_start) % u32_mod in
    let gx = index % g.grid_cols in
    let gy = index / g.grid_cols in
    let ys = around gy g.grid_rows in
    if loops_forever gy || (loops_forever gx && not (is_empty_list ys))
    then none
    else some (adjacent_rows env g gx gy ys)
