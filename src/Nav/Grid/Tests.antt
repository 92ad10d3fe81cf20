-- ===== src/Nav/Grid/Tests.antt =====
-- Runs of the grid.
use bot_cock_pit.Prelude.{◌≡◌, refl}
use bot_cock_pit.Int.{pos, ◌+ℤ◌, ◌*ℤ◌}
use bot_cock_pit.Nav.Grid.{make_corridor_demo, inflate, at}

wall : at make_corridor_demo (pos 20) (pos 3) ≡ 1
unfolding make_corridor_demo at
wall = refl

inflated : at (inflate 1 make_corridor_demo) (pos 19) (pos 3) ≡ 1
unfolding make_corridor_demo inflate at ◌+ℤ◌ ◌*ℤ◌
inflated = refl

gap_free : at (inflate 1 make_corridor_demo) (pos 20) (pos 9) ≡ 0
unfolding make_corridor_demo inflate at ◌+ℤ◌ ◌*ℤ◌
gap_free = refl
