-- ===== src/Nav/Plan/Ends.antt =====
-- The path that astar returns, from the pose to the goal (sim/include/botcockpit_sim/nav.hpp).
use bot_cock_pit.Prelude.{
  ℕ, ◌≤◌, ◌≡◌, refl, ap, subst, ◌∙◌, inl, inr, not, ◌&&◌, ◌||◌, List, [], ◌∷◌, Option, none, some,
  arith, if-intro, if-both, ltb, Option-cases,
}
use mathlib.Core.List.{foldl}
use bot_cock_pit.Int.{ℤ, pos, negsuc, ◌+ℤ◌, ◌*ℤ◌, pos_part}
use bot_cock_pit.Floats.{Floats}
use bot_cock_pit.Nav.Grid.{Grid, at, outside, index, offsets}
use bot_cock_pit.Nav.Map.{GridMap, Point, world_to_cell}
use bot_cock_pit.Nav.Plan.{
  Singles, Nearest, try_cell, try_square, is_found, is_free_cell, snap_free, Outcome,
}
use bot_cock_pit.Nav.Plan.Path.{from_cells, astar, points_of, publish_way}
use bot_cock_pit.Nav.Plan.Sound.{IsRanked}
use bot_cock_pit.Nav.Plan.Route.{IsWay, IsDone, none_left, found, find_way-IsDone}

-- A cell of the grid that is free.
pub record IsFree (g : Grid) (c : ℤ × ℤ) : Type 0 where
  pub free : at g c.0 c.1 ≡ 0

-- What a cell that may be absent is if it is there.
abbrev IsFreeIf : Grid → Option (ℤ × ℤ) → Type 0
IsFreeIf g none = Unit
IsFreeIf g (some c) = IsFree g c

foldl-keeps_always {ℓ κ ι} :
    {A : Type ℓ} {B : Type κ} (P : A → Type ι) (f : A → B → A)
    → ((a : A) (b : B) → P a → P (f a b))
    → (bs : List B) (a : A) → P a
    → P (foldl f a bs)
foldl-keeps_always P f keep [] a p = p
foldl-keeps_always P f keep (b ∷ bs) a p = foldl-keeps_always P f keep bs (f a b) (keep a b p)

module _ (g : Grid) (x y : ℤ) where
  Kept : Nearest → Type 0
  Kept b = IsFreeIf g b.spot

  try_cell-IsFree : (b : Nearest) (dy dx : ℤ) → Kept b → Kept (try_cell g x y b dy dx)
  unfolding Kept
  try_cell-IsFree b dy dx h =
      let d = pos_part (dx *ℤ dx +ℤ dy *ℤ dy) in
      if-intro Kept
        (not (outside g (x +ℤ dx) (y +ℤ dy))
          && (is_free_cell g (x +ℤ dx) (y +ℤ dy) && ltb d b.best_d))
        {x = record { best_d = d; spot = some (x +ℤ dx, y +ℤ dy) }} {y = b}
        (λ e. record { free = ground (arith, e) }) (λ _. h)

  try_square-IsFree : (b : Nearest) (r : ℕ) → Kept b → Kept (try_square g x y b r)
  try_square-IsFree b r h = if-both Kept (is_found b) h (
      foldl-keeps_always Kept _
        (λ b dy. foldl-keeps_always Kept _ (λ b dx. try_cell-IsFree b dy dx) (offsets r) b)
        (offsets r) b h)

  snap_free-IsFree : IsFreeIf g (snap_free g x y)
  unfolding snap_free Kept
  snap_free-IsFree =
      if-intro (IsFreeIf g) (is_free_cell g x y) (λ e. record { free = ground (arith, e) })
        (λ _.
          foldl-keeps_always Kept (try_square g x y) try_square-IsFree (1 ∷ 2 ∷ 3 ∷ 4 ∷ 5 ∷ 6 ∷ [])
            (record { best_d = 1000000000; spot = none }) tt)

-- A free cell is on the grid, so its coordinates are not negative.
IsFree-pos : (g : Grid) (c : ℤ × ℤ) → IsFree g c → c ≡ (pos (pos_part c.0), pos (pos_part c.1))
unfolding at
IsFree-pos g (pos x, pos y) h = refl
IsFree-pos g (pos x, negsuc y) h = absurd (ground (arith, h))
IsFree-pos g (negsuc x, y) h = absurd (ground (arith, h))

-- The cell that the search starts from, or ends in, for a point on the map.
pub record IsEnd (F : Floats) (m : GridMap F) (p : Point F) (c : ℕ × ℕ) : Type 0 where
  pub free : at m.grid (pos c.0) (pos c.1) ≡ 0
  pub snapped :
      snap_free m.grid (world_to_cell m p.0 p.1).0 (world_to_cell m p.0 p.1).1
      ≡ some (pos c.0, pos c.1)

-- What a search may return: nothing, or the middles of the cells of a way between two free cells,
-- with the goal itself at the end.
pub data IsPlanned (F : Floats) (m : GridMap F) (start goal : Point F)
    : Option (List (Point F)) → Type 0 where
  nowhere : IsPlanned F m start goal (some [])
  along :
      {a b : ℕ × ℕ} {is : List ℕ}
      → IsEnd F m start a
      → IsEnd F m goal b
      → IsWay m.grid (index m.grid (pos a.0) (pos a.1)) (index m.grid (pos b.0) (pos b.1)) is
      → IsPlanned F m start goal (some (points_of F m goal is))

module _ (S : Singles) (ranked : IsRanked S) (F : Floats) (m : GridMap F)
    (start goal : Point F) where
  publish_way-IsPlanned :
      {a b : ℕ × ℕ} {o : Outcome}
      → IsEnd F m start a
      → IsEnd F m goal b
      → IsDone m.grid (index m.grid (pos a.0) (pos a.1)) (index m.grid (pos b.0) (pos b.1)) o
      → IsPlanned F m start goal (publish_way F m goal o)
  publish_way-IsPlanned a b none_left = nowhere
  publish_way-IsPlanned a b (found w) = along a b w

  snapped-IsEnd :
      (p : Point F) (c : ℤ × ℤ)
      → snap_free m.grid (world_to_cell m p.0 p.1).0 (world_to_cell m p.0 p.1).1 ≡ some c
      → IsEnd F m p (pos_part c.0, pos_part c.1)
  snapped-IsEnd p c e =
      let free : IsFree m.grid c =
        subst (IsFreeIf m.grid) e
          (snap_free-IsFree m.grid (world_to_cell m p.0 p.1).0 (world_to_cell m p.0 p.1).1) in
      let eq = IsFree-pos m.grid c free in
      record {
        free = subst (λ (c : ℤ × ℤ). at m.grid c.0 c.1 ≡ 0) eq free.free;
        snapped = e ∙ ap some eq;
      }

  -- With enough rounds astar ends, and returns no points, or the middles of the cells of a way
  -- of legal steps between free cells that the start and the goal snap to, with the goal itself
  -- as the last point; the floats are ordered by ranks, and adding a literal never leads down.
  pub astar-IsPlanned :
      (b : ℕ) × ((rounds : ℕ)
        → b ≤ rounds
        → IsPlanned F m start goal (astar S F rounds m start goal))
  unfolding astar from_cells
  astar-IsPlanned =
      let from =
        snap_free m.grid (world_to_cell m start.0 start.1).0 (world_to_cell m start.0 start.1).1 in
      let to =
        snap_free m.grid (world_to_cell m goal.0 goal.1).0 (world_to_cell m goal.0 goal.1).1 in
      let off = not (world_to_cell m start.0 start.1).2 || not (world_to_cell m goal.0 goal.1).2 in
      let P = λ (o : Option (List (Point F))). IsPlanned F m start goal o in
      elim (Option-cases from) [
        | inl e ↦ (0, λ rounds h. if-both P off nowhere (rw (e) nowhere))
        | inr (a, e) ↦ elim (Option-cases to) [
          | inl k ↦ (0, λ rounds h. if-both P off nowhere (rw (e, k) nowhere))
          | inr (b, k) ↦
              let (n, more) =
                find_way-IsDone S ranked m.grid (pos_part b.0, pos_part b.1)
                  (pos_part a.0, pos_part a.1) in
              (
                n,
                λ rounds h. if-both P off nowhere (
                    rw (e, k)
                      (publish_way-IsPlanned (snapped-IsEnd start a e) (snapped-IsEnd goal b k)
                        (more rounds h))),
              )
        ]
      ]
