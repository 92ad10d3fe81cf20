-- ===== src/Nav/Grid.antt =====
-- The occupancy grid (sim/include/botcockpit_sim/nav.hpp, GridMap). A cell's index is an `int`;
-- the grid is 40 by 20, so no sum or product of indices leaves the range of `int`.
mod Tests
use bot_cock_pit.Prelude.{
  ℕ, zero, suc, ◌+◌, ◌-◌, ◌*◌, Bool, true, false, not, ◌||◌, ◌&&◌, List, [], ◌∷◌, ◌++◌, map, ltb,
  leb, ◌==◌, if◌then◌else◌, get_or, set, flat,
}
use mathlib.Core.List.{foldl}
use bot_cock_pit.Int.{ℤ, pos, negsuc, ◌+ℤ◌, ◌*ℤ◌, pos_part, ltb_ℤ, leb_ℤ}

pub record Grid : Type 0 where
  pub width : ℕ
  pub height : ℕ
  pub occ : List ℕ  -- uint8_t, 1 = occupied

-- The guard of `set` and `at`: negative, or past the border.
abbrev pub outside : Grid → ℤ → ℤ → Bool
outside g (pos x) (pos y) = leb g.width x || leb g.height y
outside g _ _ = true

abbrev pub index : Grid → ℤ → ℤ → ℕ
index g x y = pos_part y * g.width + pos_part x

unfoldable pub set_cell : Grid → ℤ → ℤ → ℕ → Grid
set_cell g x y v = if outside g x y then g else record g { occ = set g.occ (index g x y) v }

unfoldable pub at : Grid → ℤ → ℤ → ℕ
at g x y = if outside g x y then 1 else get_or g.occ (index g x y) 0

-- 0, …, n - 1.
abbrev pub below : ℕ → List ℕ
below zero = []
below (suc n) = below n ++ n ∷ []

abbrev replicate : ℕ → ℕ → List ℕ
replicate zero a = []
replicate (suc n) a = a ∷ replicate n a

abbrev pub fill_cells : Grid → List (ℕ × ℕ) → Grid
fill_cells = foldl λ g c. set_cell g (pos c.0) (pos c.1) 1

border_cells : ℕ → ℕ → List (ℕ × ℕ)
border_cells w h =
    flat (map (λ x. (x, 0) ∷ (x, h - 1) ∷ []) (below w))
    ++ flat (map (λ y. (0, y) ∷ (w - 1, y) ∷ []) (below h))

-- `for y = 2 .. height - 3`, but for the gap `7 <= y <= 11`.
wall_cells : ℕ → List (ℕ × ℕ)
wall_cells h =
    flat (map (λ y. if ltb y 2 || leb 7 y && leb y 11 then [] else (20, y) ∷ []) (below (h - 2)))

unfoldable pub make_corridor_demo : Grid
unfolding set_cell border_cells wall_cells
make_corridor_demo =
    fill_cells (record { width = 40; height = 20; occ = replicate (40 * 20) 0 })
      (border_cells 40 20 ++ wall_cells 20 ++ (5, 4) ∷ (6, 4) ∷ [])

-- -r, …, r.
abbrev pub offsets : ℕ → List ℤ
offsets r = map (λ i. if ltb i r then negsuc (r - i - 1) else pos (i - r)) (below (r + r + 1))

-- The two inner loops of `inflate`, at an occupied cell.
unfoldable pub mark_disc : ℕ → Grid → ℕ → ℕ → Grid
unfolding set_cell
mark_disc r g x y =
    foldl
      (λ g dy.
        foldl
          (λ g dx.
            if leb_ℤ (dx *ℤ dx +ℤ dy *ℤ dy) (pos (r * r))
            then set_cell g (pos x +ℤ dx) (pos y +ℤ dy) 1
            else g)
          g (offsets r))
      g (offsets r)

-- `src` is the copy of the cells as they were.
unfoldable pub inflate_cell : ℕ → Grid → Grid → ℕ × ℕ → Grid
unfolding mark_disc
inflate_cell r src g (x, y) =
    if get_or src.occ (y * src.width + x) 0 == 0 then g else mark_disc r g x y

abbrev pub all_cells : ℕ → ℕ → List (ℕ × ℕ)
all_cells w h = flat (map (λ y. map (λ x. (x, y)) (below w)) (below h))

unfoldable pub inflate : ℕ → Grid → Grid
unfolding inflate_cell
inflate zero g = g
inflate (suc r) g = foldl (inflate_cell (suc r) g) g (all_cells g.width g.height)
