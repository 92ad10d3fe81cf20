-- ===== src/Nav/Track/Tests.antt =====
-- A path of three points on a free grid, with whole numbers for the `double`s.
use bot_cock_pit.Prelude.{◌≤◌, ◌<◌, ◌⊎◌, List, [], ◌∷◌, arith, length, drop}
use bot_cock_pit.Floats.Whole.{whole}
use bot_cock_pit.Nav.Map.{GridMap, Point}
use bot_cock_pit.Nav.Track.{advance_idx, aim_point, pure_pursuit, back}
use bot_cock_pit.Nav.Track.Bounds.{
  advance_idx-bounds, IsAim, aim_point-IsAim, IsSpeed, pure_pursuit-IsSpeed,
}

abbrev free : GridMap whole
free = record {
  grid = record { width = 3; height = 2; occ = 0 ∷ 0 ∷ 0 ∷ 0 ∷ 0 ∷ 0 ∷ [] };
  resolution = 1;
  origin_x = 0;
  origin_y = 0;
}

abbrev turn : List (Point whole)
turn = (0, 0) ∷ (2, 0) ∷ (2, 1) ∷ []

advance_idx-bounds_example :
    (1 ≤ advance_idx whole turn 1 (2, 0))
    × ((advance_idx whole turn 1 (2, 0) < length turn) ⊎ (length turn ≤ 1))
advance_idx-bounds_example = advance_idx-bounds whole turn 1 (2, 0)

aim_point-IsAim_example :
    IsAim whole free
      (0, 0)
      (back whole (0, 0) ((2, 0) ∷ (2, 1) ∷ []))
      (drop 0 turn)
      (aim_point whole free turn 0 (0, 0) 1)
aim_point-IsAim_example =
    aim_point-IsAim whole free (0, 0) ((2, 0) ∷ (2, 1) ∷ []) 0 (0, 0) 1 (omega arith)

pure_pursuit-IsSpeed_example : IsSpeed whole (pure_pursuit whole free (0, 0) 0 turn 0 1).1
pure_pursuit-IsSpeed_example = pure_pursuit-IsSpeed whole free (0, 0) 0 turn 0 1
