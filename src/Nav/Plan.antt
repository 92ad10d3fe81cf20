-- ===== src/Nav/Plan.antt =====
-- The search for a way on the grid (sim/include/botcockpit_sim/nav.hpp, astar). A cell is named by
-- its index in the grid, an `int`.
pub mod Path
mod Chain
mod Sound
mod Run
pub mod Route
pub mod Ends
mod Reach
mod Closed
pub mod Complete
mod Tests
use bot_cock_pit.Prelude.{
  ℕ, zero, suc, ◌+◌, ◌-◌, ◌*◌, ◌/◌, ◌%◌, min, max, Bool, true, false, not, ◌&&◌, ◌||◌, List, [],
  ◌∷◌, map, Option, none, some, ltb, ◌==◌, if◌then◌else◌, get_or, set, length,
}
use mathlib.Core.List.{foldl, reverse}
use mathlib.Core.Option
use bot_cock_pit.Int.{ℤ, pos, negsuc, ◌+ℤ◌, ◌*ℤ◌, pos_part}
use bot_cock_pit.Floats.{Floats}
use bot_cock_pit.Nav.Grid.{Grid, at, outside, index, offsets}
use bot_cock_pit.Nav.Map.{GridMap, Point, world_to_cell}

-- What the search uses of `float`.
pub record Singles : Type 1 where
  pub Single : Type 0
  pub infinity : Single
  pub lit : ℕ → ℕ → Single  -- the decimal literal n / d
  pub of_int : ℕ → Single
  pub add : Single → Single → Single
  pub mul : Single → Single → Single
  pub lt : Single → Single → Bool  -- `a < b`

-- The nearest free cell that the ring has shown so far, and the square of its distance.
pub record Nearest : Type 0 where
  pub best_d : ℕ
  pub spot : Option (ℤ × ℤ)

abbrev pub is_found : Nearest → Bool
is_found b = elim b.spot [ none ↦ false | some c ↦ true ]

module _ (g : Grid) where
  abbrev pub is_free_cell : ℤ → ℤ → Bool
  is_free_cell x y = at g x y == 0

  abbrev pub try_cell : ℤ → ℤ → Nearest → ℤ → ℤ → Nearest
  try_cell x y b dy dx =
      let d = pos_part (dx *ℤ dx +ℤ dy *ℤ dy) in
      if not (outside g (x +ℤ dx) (y +ℤ dy)) && (is_free_cell (x +ℤ dx) (y +ℤ dy) && ltb d b.best_d)
      then record { best_d = d; spot = some (x +ℤ dx, y +ℤ dy) }
      else b

  abbrev pub try_square : ℤ → ℤ → Nearest → ℕ → Nearest
  try_square x y b r =
      if is_found b
      then b
      else foldl (λ b dy. foldl (λ b dx. try_cell x y b dy dx) b (offsets r)) b (offsets r)

  -- The lambda `snap_free`.
  unfoldable pub snap_free : ℤ → ℤ → Option (ℤ × ℤ)
  snap_free x y =
      if is_free_cell x y
      then some (x, y)
      else (foldl (try_square x y) (record { best_d = 1000000000; spot = none })
          (1 ∷ 2 ∷ 3 ∷ 4 ∷ 5 ∷ 6 ∷ [])).spot

  abbrev pub moves : ℤ → Bool
  moves d = not (pos_part (d *ℤ d) == 0)

  abbrev pub is_diagonal : ℤ × ℤ → Bool
  is_diagonal d = moves d.0 && moves d.1

  abbrev pub column : ℕ → ℤ
  column i = pos (i % g.width)

  abbrev pub row : ℕ → ℤ
  row i = pos (i / g.width)

  abbrev pub target : ℕ → ℤ × ℤ → ℕ
  target i d = index g (column i +ℤ d.0) (row i +ℤ d.1)

  -- The guards of the loop over the neighbours of a cell.
  unfoldable pub can_step : ℕ → ℤ × ℤ → Bool
  can_step i d =
      not (outside g (column i +ℤ d.0) (row i +ℤ d.1))
      && (is_free_cell (column i +ℤ d.0) (row i +ℤ d.1)
          && not (
              is_diagonal d
              && (not (is_free_cell (column i +ℤ d.0) (row i))
                  || not (is_free_cell (column i) (row i +ℤ d.1)))))

abbrev pub dirs : List (ℤ × ℤ)
dirs =
    (pos 1, pos 0)
    ∷ (negsuc 0, pos 0)
    ∷ (pos 0, pos 1)
    ∷ (pos 0, negsuc 0)
    ∷ (pos 1, pos 1)
    ∷ (pos 1, negsuc 0)
    ∷ (negsuc 0, pos 1)
    ∷ (negsuc 0, negsuc 0)
    ∷ []

-- `came` holds -1 where it is `none` here. `queue` is the priority queue `open`, in no order.
pub record Search (S : Singles) : Type 0 where
  pub came : List (Option ℕ)
  pub gscore : List S.Single
  pub queue : List (S.Single × ℕ)

pub data Outcome : Type 0 where
  unfinished no_way : Outcome
  way : List ℕ → Outcome

-- The way back from a cell, by `came`.
unfoldable pub trace : ℕ → List (Option ℕ) → ℕ → Option (List ℕ)
trace zero came i = none
trace (suc n) came i = elim (get_or came i none) [
  | none ↦ some (i ∷ [])
  | some j ↦ Option.map (λ is. i ∷ is) (trace n came j)
]

abbrev pub copies {ℓ} : {A : Type ℓ} → ℕ → A → List A
copies zero a = []
copies (suc n) a = a ∷ copies n a

abbrev pub arrive : Option (List ℕ) → Outcome
arrive none = unfinished
arrive (some is) = way is

module _ (S : Singles) where
  -- The order of the pairs in the queue.
  abbrev pub before : S.Single × ℕ → S.Single × ℕ → Bool
  before a b = S.lt a.0 b.0 || not (S.lt b.0 a.0) && ltb a.1 b.1

  -- The least entry of a queue with `q`, and the others.
  unfoldable pub take_least :
      List (S.Single × ℕ) → S.Single × ℕ → (S.Single × ℕ) × List (S.Single × ℕ)
  take_least [] q = (q, [])
  take_least (x ∷ xs) q =
      let (least, others) = take_least xs x in
      if before least q then (least, q ∷ others) else (q, x ∷ xs)

  abbrev pub away : ℕ → ℕ → ℕ
  away a b = (a - b) + (b - a)

  module _ (g : Grid) (goal : ℕ × ℕ) where
    -- The lambda `h`.
    abbrev pub heuristic : ℕ → ℕ → S.Single
    heuristic x y =
        let dx = away x goal.0 in
        let dy = away y goal.1 in
        S.add (S.of_int (max dx dy)) (S.mul (S.lit 4142 10000) (S.of_int (min dx dy)))

    abbrev pub stride : ℤ × ℤ → S.Single
    stride d = if is_diagonal g d then S.lit 14142 10000 else S.lit 1 1

    unfoldable pub score : Search S → ℕ → S.Single
    score st i = get_or st.gscore i S.infinity

    unfoldable pub improve : ℕ → ℤ × ℤ → Search S → Search S
    unfolding score
    improve cur d st =
        let ni = target g cur d in
        let tentative = S.add (score st cur) (stride d) in
        let h = heuristic (pos_part (column g cur +ℤ d.0)) (pos_part (row g cur +ℤ d.1)) in
        record {
          came = set st.came ni (some cur);
          gscore = set st.gscore ni tentative;
          queue = (S.add tentative h, ni) ∷ st.queue;
        }

    unfoldable pub relax : ℕ → Search S → ℤ × ℤ → Search S
    unfolding can_step improve
    relax cur st d =
        if can_step g cur d && S.lt (S.add (score st cur) (stride d)) (score st (target g cur d))
        then improve cur d st
        else st

    unfoldable pub expand : ℕ → Search S → Search S
    unfolding relax
    expand cur st = foldl (relax cur) st dirs

    -- `rounds` bounds the walk back.
    unfoldable pub loop : ℕ → ℕ → Search S → Outcome
    unfolding trace take_least expand
    loop rounds zero st = unfinished
    loop rounds (suc n) st = elim st.queue [
      | [] ↦ no_way
      | q ∷ qs ↦
          let (least, others) = take_least qs q in
          let next = expand least.1 (record st { queue = others }) in
          elim (least.1 == index g (pos goal.0) (pos goal.1)) [
            | true ↦ arrive (trace rounds st.came least.1)
            | false ↦ loop rounds n next
          ]
    ]

    unfoldable pub opening : ℕ × ℕ → Search S
    opening start =
        let n = g.width * g.height in
        let s = index g (pos start.0) (pos start.1) in
        record {
          came = copies n none;
          gscore = set (copies n S.infinity) s (S.lit 0 1);
          queue = (heuristic start.0 start.1, s) ∷ [];
        }

    unfoldable pub find_way : ℕ → ℕ × ℕ → Outcome
    unfolding loop opening
    find_way rounds start = loop rounds rounds (opening start)
