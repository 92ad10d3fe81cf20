-- ===== src/Nav/Track.antt =====
-- Following a path (sim/include/botcockpit_sim/nav.hpp, segment_free to pure_pursuit).
pub mod Bounds
mod Tests
use bot_cock_pit.Prelude.{
  ℕ, zero, suc, ◌+◌, ◌-◌, ◌≤◌, ◌<◌, Bool, true, false, not, ◌&&◌, ◌||◌, List, [], ◌∷◌,
  if◌then◌else◌, length, get_or, drop, leb, ltb, max,
}
use bot_cock_pit.Int.{ℤ, pos, pos_part}
use bot_cock_pit.Floats.{Floats}
use bot_cock_pit.Nav.Map.{GridMap, Point, is_free}

module _ (F : Floats) where
  -- `std::max(a, b)` and `std::min(a, b)`.
  abbrev pub larger : F.Double → F.Double → F.Double
  larger a b = if F.lt a b then b else a

  abbrev pub smaller : F.Double → F.Double → F.Double
  smaller a b = if F.lt b a then b else a

  abbrev pub between : Point F → Point F → F.Double
  between p q = F.hypot (F.sub q.0 p.0) (F.sub q.1 p.1)

  -- The two `while` loops that bring an angle between -pi and pi, on fuel: at most `rounds` rounds
  -- each.
  unfoldable pub wrap_down : ℕ → F.Double → F.Double
  wrap_down zero a = a
  wrap_down (suc n) a =
      let rest = wrap_down n (F.sub a (F.mul (F.lit 2 1) F.pi)) in if F.lt F.pi a then rest else a

  unfoldable pub wrap_up : ℕ → F.Double → F.Double
  wrap_up zero a = a
  wrap_up (suc n) a =
      let rest = wrap_up n (F.add a (F.mul (F.lit 2 1) F.pi)) in
      if F.lt a (F.neg F.pi) then rest else a

  unfoldable pub wrap_angle : ℕ → F.Double → F.Double
  unfolding wrap_down wrap_up
  wrap_angle rounds a = wrap_up rounds (wrap_down rounds a)

  unfoldable pub heading_err : ℕ → F.Double → Point F → Point F → F.Double
  unfolding wrap_angle
  heading_err rounds yaw p t =
      wrap_angle rounds (F.sub (F.atan2 (F.sub t.1 p.1) (F.sub t.0 p.0)) yaw)

  -- `advance_idx` on the path from `idx` on.
  unfoldable pub advance_from : Point F → List (Point F) → ℕ → ℕ
  advance_from pose [] idx = idx
  advance_from pose (p ∷ []) idx = idx
  advance_from pose (p ∷ q ∷ ps) idx =
      let d0 = between pose p in
      let d1 = between pose q in
      let rest = advance_from pose (q ∷ ps) (suc idx) in
      if F.lt d0 (F.lit 35 100) || F.lt (F.add d1 (F.lit 5 100)) d0 then rest else idx

  unfoldable pub advance_idx : List (Point F) → ℕ → Point F → ℕ
  unfolding advance_from
  advance_idx path idx pose = advance_from pose (drop idx path) idx

  -- The points `i`, …, `i + rounds - 1` of the `n + 1` that divide the segment.
  unfoldable pub samples_free : GridMap F → Point F → Point F → ℕ → ℕ → ℕ → Bool
  samples_free m a b n i zero = true
  samples_free m a b n i (suc rounds) =
      let t = F.div (F.of_int (pos i)) (F.of_int (pos n)) in
      let x = F.add a.0 (F.mul (F.sub b.0 a.0) t) in
      let y = F.add a.1 (F.mul (F.sub b.1 a.1) t) in
      let rest = samples_free m a b n (suc i) rounds in if is_free m x y then rest else false

  abbrev pub sample_count : Point F → Point F → ℕ
  sample_count a b = max 1 (pos_part (F.ceil (F.div (between a b) (F.lit 8 100))))

  unfoldable pub segment_free : GridMap F → Point F → Point F → Bool
  unfolding samples_free
  segment_free m a b = let n = sample_count a b in samples_free m a b n 0 (suc n)

  -- The loop of `aim_point` behind the point `best`, with the budget that is left.
  unfoldable pub aim_from :
      GridMap F → Point F → F.Double → F.Double → Point F → List (Point F) → Point F
  unfolding segment_free
  aim_from m pose lookahead budget best [] = best
  aim_from m pose lookahead budget best (p ∷ ps) =
      let left = F.sub budget (between best p) in
      let rest = aim_from m pose lookahead left p ps in
      if F.lt left (F.lit 0 1)
      then best
      else if not (segment_free m pose p)
      then best
      else if F.le lookahead (between pose p)
      then p
      else rest

  abbrev pub back : Point F → List (Point F) → Point F
  back p [] = p
  back p (q ∷ ps) = back q ps

  -- On the path from `idx` on.
  unfoldable pub aim_along : GridMap F → Point F → F.Double → Point F → List (Point F) → Point F
  unfolding segment_free aim_from
  aim_along m pose lookahead last [] = last
  aim_along m pose lookahead last (p ∷ ps) =
      if F.lt (between pose last) (F.lit 60 100)
      then last
      else if not (segment_free m pose p)
      then p
      else if F.le lookahead (between pose p)
      then p
      else aim_from m pose lookahead lookahead p ps

  unfoldable pub aim_point : GridMap F → List (Point F) → ℕ → Point F → F.Double → Point F
  unfolding aim_along
  aim_point m [] idx pose lookahead = pose
  aim_point m (p ∷ ps) idx pose lookahead =
      aim_along m pose lookahead (back p ps) (drop idx (p ∷ ps))

  -- `std::max(0.28, seg * 1.2)` and the like, on the segment in front.
  abbrev pub look_length : F.Double → List (Point F) → F.Double
  look_length lookahead (p ∷ q ∷ ps) =
      let seg = between p q in
      if F.lt (F.lit 1 1000) seg && F.lt seg (F.lit 55 100)
      then smaller lookahead (larger (F.lit 28 100) (F.mul seg (F.lit 12 10)))
      else lookahead
  look_length lookahead _ = lookahead

  abbrev pub sign_of : Bool → F.Double
  sign_of true = F.lit 1 1
  sign_of false = F.neg (F.lit 1 1)

  -- `w` brought between -1 and 1.
  abbrev clamp : F.Double → F.Double
  clamp w =
      let low = if F.lt (F.lit 1 1) w then F.lit 1 1 else w in
      if F.lt low (F.neg (F.lit 1 1)) then F.neg (F.lit 1 1) else low

  -- The speeds `v` and `w` for an aim at the angle `alpha`.
  unfoldable pub steer : F.Double → F.Double → F.Double → F.Double × F.Double
  steer local_x alpha dist =
      let v = if F.lt (F.lit 4 10) (F.abs alpha) then F.lit 12 100 else F.lit 28 100 in
      if F.lt (F.lit 9 10) (F.abs alpha)
      then (F.lit 0 1, F.mul (sign_of (F.lt (F.lit 0 1) alpha)) (F.lit 9 10))
      else if F.lt local_x (F.lit 0 1)
      then (F.lit 10 100, F.mul (sign_of (F.le (F.lit 0 1) alpha)) (F.lit 6 10))
      else if F.lt (F.abs alpha) (F.lit 5 10)
      then (v, clamp (F.div (F.mul (F.mul (F.lit 2 1) v) (F.sin alpha)) dist))
      else (F.lit 10 100, F.mul (sign_of (F.le (F.lit 0 1) alpha)) (F.lit 7 10))

  abbrev pub steer_to : F.Double → Point F → Point F → F.Double × F.Double
  steer_to yaw pose aim =
      let dx = F.sub aim.0 pose.0 in
      let dy = F.sub aim.1 pose.1 in
      let local_x = F.add (F.mul (F.cos yaw) dx) (F.mul (F.sin yaw) dy) in
      let local_y = F.add (F.mul (F.neg (F.sin yaw)) dx) (F.mul (F.cos yaw) dy) in
      steer local_x (F.atan2 local_y local_x) (larger (F.lit 5 100) (F.hypot dx dy))

  -- The index and the speeds.
  unfoldable pub pure_pursuit :
      GridMap F → Point F → F.Double → List (Point F) → ℕ → F.Double → ℕ × F.Double × F.Double
  unfolding advance_idx aim_point steer
  pure_pursuit m pose yaw path idx lookahead =
      let next = advance_idx path idx pose in
      let aim = aim_point m path next pose (look_length lookahead (drop next path)) in
      let (v, w) = steer_to yaw pose aim in
      if leb (length path) idx
      then (idx, F.lit 0 1, F.lit 0 1)
      else if leb (length path) next
      then (next, F.lit 0 1, F.lit 0 1)
      else (next, v, w)
