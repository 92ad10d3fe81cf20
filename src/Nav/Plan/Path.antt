-- ===== src/Nav/Plan/Path.antt =====
-- The points of astar's way in the world (sim/include/botcockpit_sim/nav.hpp).
use bot_cock_pit.Prelude.{
  ℕ, ◌-◌, not, ◌||◌, List, [], map, Option, none, some, if◌then◌else◌, set, length,
}
use mathlib.Core.List.{reverse}
use mathlib.Core.Option
use bot_cock_pit.Int.{ℤ, pos_part}
use bot_cock_pit.Floats.{Floats}
use bot_cock_pit.Nav.Map.{GridMap, Point, world_to_cell}
use bot_cock_pit.Nav.Plan.{
  Singles, Outcome, unfinished, no_way, way, column, row, snap_free, find_way,
}

module _ (F : Floats) where
  -- The middle of a cell.
  abbrev pub cell_to_world : GridMap F → ℕ → Point F
  cell_to_world m i =
      let at_x = F.add (F.of_int (column m.grid i)) (F.lit 5 10) in
      let at_y = F.add (F.of_int (row m.grid i)) (F.lit 5 10) in
      (F.add m.origin_x (F.mul at_x m.resolution), F.add m.origin_y (F.mul at_y m.resolution))

  -- The points of a way, whose last one is the goal as it was asked for.
  abbrev pub points_of : GridMap F → Point F → List ℕ → List (Point F)
  points_of m goal is =
      let path = reverse (map (cell_to_world m) is) in set path (length path - 1) goal

  abbrev pub publish_way : GridMap F → Point F → Outcome → Option (List (Point F))
  publish_way m goal unfinished = none
  publish_way m goal no_way = some []
  publish_way m goal (way is) = some (points_of m goal is)

-- A free cell has coordinates that are not negative.
abbrev pub cell_of : Option (ℤ × ℤ) → Option (ℕ × ℕ)
cell_of = Option.map λ c. (pos_part c.0, pos_part c.1)

module _ (S : Singles) (F : Floats) where
  unfoldable pub from_cells :
      ℕ → GridMap F → Point F → Option (ℕ × ℕ) → Option (ℕ × ℕ) → Option (List (Point F))
  unfolding find_way
  from_cells rounds m goal (some a) (some b) = publish_way F m goal (find_way S m.grid b rounds a)
  from_cells rounds m goal _ _ = some []

  -- `none` where `rounds` were too few; an empty list is the failure of the source.
  unfoldable pub astar : ℕ → GridMap F → Point F → Point F → Option (List (Point F))
  unfolding snap_free world_to_cell
  astar rounds m start goal =
      let (scx, scy, start_on) = world_to_cell m start.0 start.1 in
      let (gcx, gcy, goal_on) = world_to_cell m goal.0 goal.1 in
      if not start_on || not goal_on
      then some []
      else from_cells rounds m goal (cell_of (snap_free m.grid scx scy))
          (cell_of (snap_free m.grid gcx gcy))

  -- The planner of the robot.
  abbrev pub planner : ℕ → GridMap F → Point F → Point F → List (Point F)
  planner rounds m start goal = Option.get_or (astar rounds m start goal) []
