-- ===== src/Nav/Plan/Tests.antt =====
-- A search on a small grid, with tenths for the `float`s and whole numbers for the `double`s.
use bot_cock_pit.Prelude.{
  ℕ, ◌+◌, ◌*◌, ◌/◌, ◌≤◌, ◌≡◌, refl, List, [], ◌∷◌, some, ltb, leb, arith, ◌&&◌, if◌then◌else◌, min,
}
use bot_cock_pit.Int.{pos, ◌+ℤ◌, ◌*ℤ◌}
use bot_cock_pit.Floats.Whole.{whole}
use bot_cock_pit.Nav.Grid.{at}
use bot_cock_pit.Nav.Map.{GridMap, world_to_cell}
use bot_cock_pit.Nav.Plan.{
  Singles, find_way, way, loop, trace, take_least, expand, relax, improve, can_step, opening, score,
  snap_free,
}
use bot_cock_pit.Nav.Plan.Path.{astar, from_cells}
use bot_cock_pit.Nav.Plan.Sound.{IsRanked, IsStep}
use bot_cock_pit.Nav.Plan.Reach.{IsTopped}
use bot_cock_pit.Nav.Plan.Complete.{find_way-finds}
use bot_cock_pit.Nav.Plan.Route.{IsWay, stay, go}
use bot_cock_pit.Nav.Plan.Ends.{IsPlanned, astar-IsPlanned}

abbrev tenths : Singles
tenths = record {
  Single = ℕ;
  infinity = 1000000;
  lit = λ n d. n * 10 / d;
  of_int = λ n. n * 10;
  add = λ a b. if ltb a 1000000 then min (a + b) 999999 else a;
  mul = λ a b. a * b / 10;
  lt = λ a b. ltb a b && leb b 1000000;
}

tenths-IsRanked : IsRanked tenths
tenths-IsRanked = record {
  rank = λ a. a;
  rank-lt = λ a b h. ground (arith, h);
  rank-add = λ a n d. ground arith;
}

tenths-IsTopped : IsTopped tenths
tenths-IsTopped = record {
  zero_low = refl;
  below = λ a b h. ground (arith, h);
  straight_low = λ a h. ground (arith, h);
  diagonal_low = λ a h. ground (arith, h);
}

-- A wall with a gap in its last row.
abbrev walled : GridMap whole
walled = record {
  grid = record { width = 3; height = 3; occ = 0 ∷ 1 ∷ 0 ∷ 0 ∷ 1 ∷ 0 ∷ 0 ∷ 0 ∷ 0 ∷ [] };
  resolution = 1;
  origin_x = 0;
  origin_y = 0;
}

around : find_way tenths walled.grid (2, 0) 40 (0, 0) ≡ way (2 ∷ 5 ∷ 8 ∷ 7 ∷ 6 ∷ 3 ∷ 0 ∷ [])
unfolding find_way loop trace take_least expand relax improve can_step opening score at ◌+ℤ◌ ◌*ℤ◌
around = refl

around_points :
    astar tenths whole 40 walled (0, 0) (2, 0)
    ≡ some ((0, 0) ∷ (0, 1) ∷ (0, 2) ∷ (1, 2) ∷ (2, 2) ∷ (2, 1) ∷ (2, 0) ∷ [])
unfolding astar from_cells snap_free world_to_cell find_way loop trace take_least expand relax
    improve can_step opening score at ◌+ℤ◌ ◌*ℤ◌
around_points = refl

astar-IsPlanned_example :
    (b : ℕ) × ((rounds : ℕ)
      → b ≤ rounds
      → IsPlanned whole walled (0, 0) (2, 0) (astar tenths whole rounds walled (0, 0) (2, 0)))
astar-IsPlanned_example = astar-IsPlanned tenths tenths-IsRanked whole walled (0, 0) (2, 0)

down : IsStep walled.grid 0 3
unfolding at ◌+ℤ◌
down = record {
  dx = pos 0;
  dy = pos 1;
  unit_x = refl;
  unit_y = refl;
  moved = refl;
  free = refl;
  side_x = λ h. refl;
  side_y = λ h. refl;
  lands = refl;
}

again : IsStep walled.grid 3 6
unfolding at ◌+ℤ◌
again = record {
  dx = pos 0;
  dy = pos 1;
  unit_x = refl;
  unit_y = refl;
  moved = refl;
  free = refl;
  side_x = λ h. refl;
  side_y = λ h. refl;
  lands = refl;
}

find_way-finds_example :
    (b : ℕ) × ((rounds : ℕ)
      → b ≤ rounds
      → (js : List ℕ) × (find_way tenths walled.grid (0, 2) rounds (0, 0) ≡ way js)
        × IsWay walled.grid 0 6 js)
find_way-finds_example =
    find_way-finds tenths tenths-IsRanked tenths-IsTopped walled.grid (0, 2) (0, 0) (omega arith)
      (omega arith) (go again (go down stay))
