-- ===== src/Nav/Map.antt =====
-- The map in the world's coordinates (sim/include/botcockpit_sim/nav.hpp, GridMap and is_free).
use bot_cock_pit.Prelude.{ℕ, Bool, false, not, ◌==◌, if◌then◌else◌}
use bot_cock_pit.Int.{ℤ}
use bot_cock_pit.Floats.{Floats}
use bot_cock_pit.Nav.Grid
use bot_cock_pit.Nav.Grid.{Grid}

pub record GridMap (F : Floats) : Type 0 where
  pub grid : Grid
  pub resolution : F.Double
  pub origin_x : F.Double
  pub origin_y : F.Double

abbrev pub Point : Floats → Type 0
Point F = F.Double × F.Double

unfoldable pub make_corridor_demo : (F : Floats) → GridMap F
make_corridor_demo F = record {
  grid = Grid.make_corridor_demo;
  resolution = F.lit 5 10;
  origin_x = F.lit 0 1;
  origin_y = F.neg (F.lit 5 1);
}

module _ {F : Floats} where
  unfoldable pub inflate : ℕ → GridMap F → GridMap F
  inflate r m = record m { grid = Grid.inflate r m.grid }

  -- The cell of a point, and whether it lies on the map.
  unfoldable pub world_to_cell : GridMap F → F.Double → F.Double → ℤ × ℤ × Bool
  world_to_cell m wx wy =
      let cx = F.floor (F.div (F.sub wx m.origin_x) m.resolution) in
      let cy = F.floor (F.div (F.sub wy m.origin_y) m.resolution) in
      (cx, cy, not (Grid.outside m.grid cx cy))

  unfoldable pub is_free : GridMap F → F.Double → F.Double → Bool
  is_free m wx wy =
      let (cx, cy, on_map) = world_to_cell m wx wy in
      if on_map then Grid.at m.grid cx cy == 0 else false
