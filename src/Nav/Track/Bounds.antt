-- ===== src/Nav/Track/Bounds.antt =====
-- Where on its path the robot is and what it aims at (sim/include/botcockpit_sim/nav.hpp,
-- advance_idx, aim_point and pure_pursuit).
use bot_cock_pit.Prelude.{
  ℕ, suc, ◌+◌, ◌-◌, ◌≤◌, ◌<◌, ◌≡◌, ◌⊎◌, refl, true, not, List, [], ◌∷◌, length, drop, length-drop,
  arith, if-both, if-intro, leb, ◌||◌,
}
use bot_cock_pit.Floats.{Floats}
use bot_cock_pit.Nav.Map.{GridMap, Point}
use bot_cock_pit.Nav.Track.{
  advance_from, advance_idx, segment_free, aim_from, aim_along, aim_point, back, between, steer,
  steer_to, look_length, pure_pursuit,
}

module _ (F : Floats) where
  -- An index on the rest of a path.
  record IsOn (idx : ℕ) (rest : List (Point F)) (next : ℕ) : Type 0 where
    low : idx ≤ next
    high : next ≤ idx + (length rest - 1)

  advance_from-IsOn :
      (pose : Point F) (rest : List (Point F)) (idx : ℕ)
      → IsOn idx rest (advance_from F pose rest idx)
  unfolding advance_from
  advance_from-IsOn pose [] idx = record { low = omega arith; high = omega arith }
  advance_from-IsOn pose (p ∷ []) idx = record { low = omega arith; high = omega arith }
  advance_from-IsOn pose (p ∷ q ∷ ps) idx =
      let more = advance_from-IsOn pose (q ∷ ps) (suc idx) in
      if-both (λ (n : ℕ). IsOn idx (p ∷ q ∷ ps) n)
        (F.lt (between F pose p) (F.lit 35 100)
          || F.lt (F.add (between F pose q) (F.lit 5 100)) (between F pose p))
        {x = advance_from F pose (q ∷ ps) (suc idx)} {y = idx}
        (record { low = omega (arith, more.low); high = omega (arith, more.high) })
        (record { low = omega arith; high = omega arith })

  -- The index never goes back, and it is on the path afterwards, unless it was behind the path's
  -- end before.
  pub advance_idx-bounds :
      (path : List (Point F)) (idx : ℕ) (pose : Point F)
      → (idx ≤ advance_idx F path idx pose)
        × ((advance_idx F path idx pose < length path) ⊎ (length path ≤ idx))
  unfolding advance_idx
  advance_idx-bounds path idx pose =
      let on = advance_from-IsOn pose (drop idx path) idx in
      (on.low, omega (arith, on.high, length-drop idx path))

  aim_from-visible :
      (m : GridMap F) (pose : Point F) (lookahead budget : F.Double) (best : Point F)
      (ps : List (Point F))
      → segment_free F m pose best ≡ true
      → segment_free F m pose (aim_from F m pose lookahead budget best ps) ≡ true
  unfolding aim_from
  aim_from-visible m pose lookahead budget best [] h = h
  aim_from-visible m pose lookahead budget best (p ∷ ps) h =
      let P = λ (q : Point F). segment_free F m pose q ≡ true in
      if-both P _ h (
        if-intro P (not (segment_free F m pose p)) (λ _. h)
          (λ free.
            let seen : segment_free F m pose p ≡ true = ground (arith, free) in
            if-both P _ seen
              (aim_from-visible m pose lookahead (F.sub budget (between F best p)) p ps seen)))

  -- What the aim at `q` may be: seen along a free segment, the next point of the path, or its end.
  pub data IsAim (m : GridMap F) (pose : Point F) (last : Point F) (rest : List (Point F))
      (q : Point F) : Type 0 where
    seen : segment_free F m pose q ≡ true → IsAim m pose last rest q
    next : (ps : List (Point F)) → rest ≡ q ∷ ps → IsAim m pose last rest q
    at_end : q ≡ last → F.lt (between F pose last) (F.lit 60 100) ≡ true → IsAim m pose last rest q

  aim_along-IsAim :
      (m : GridMap F) (pose : Point F) (lookahead : F.Double) (last p : Point F)
      (ps : List (Point F))
      → IsAim m pose last (p ∷ ps) (aim_along F m pose lookahead last (p ∷ ps))
  unfolding aim_along
  aim_along-IsAim m pose lookahead last p ps =
      let P = λ (q : Point F). IsAim m pose last (p ∷ ps) q in
      if-intro P _ (λ near. at_end refl near)
        (λ _.
          if-intro P (not (segment_free F m pose p)) (λ _. next ps refl)
            (λ free.
              let s : segment_free F m pose p ≡ true = ground (arith, free) in
              if-both P _ (seen s) (seen (aim_from-visible m pose lookahead lookahead p ps s))))

  at-IsAim :
      (m : GridMap F) (pose : Point F) (lookahead : F.Double) (last : Point F)
      (rest : List (Point F))
      → 0 < length rest
      → IsAim m pose last rest (aim_along F m pose lookahead last rest)
  at-IsAim m pose lookahead last [] h = absurd (omega arith)
  at-IsAim m pose lookahead last (p ∷ ps) h = aim_along-IsAim m pose lookahead last p ps

  -- With an index on a path, the aim is a point that the pose sees along a free segment, the
  -- next point of the path, or the path's end when that is nearer than 0.60.
  pub aim_point-IsAim :
      (m : GridMap F) (p : Point F) (ps : List (Point F)) (idx : ℕ) (pose : Point F)
      (lookahead : F.Double)
      → idx < length (p ∷ ps)
      → IsAim m pose (back F p ps) (drop idx (p ∷ ps)) (aim_point F m (p ∷ ps) idx pose lookahead)
  unfolding aim_point
  aim_point-IsAim m p ps idx pose lookahead h =
      at-IsAim m pose lookahead (back F p ps) (drop idx (p ∷ ps))
        (omega (arith, length-drop idx (p ∷ ps)))

  -- The four forward speeds.
  pub data IsSpeed : F.Double → Type 0 where
    halt : IsSpeed (F.lit 0 1)
    creep : IsSpeed (F.lit 10 100)
    slow : IsSpeed (F.lit 12 100)
    cruise : IsSpeed (F.lit 28 100)

  steer-IsSpeed : (local_x alpha dist : F.Double) → IsSpeed (steer F local_x alpha dist).0
  unfolding steer
  steer-IsSpeed local_x alpha dist =
      let P = λ (r : F.Double × F.Double). IsSpeed r.0 in
      if-both P _ halt (
        if-both P _ creep
          (if-both P _ (if-both IsSpeed (F.lt (F.lit 4 10) (F.abs alpha)) slow cruise) creep))

  steer_to-IsSpeed : (yaw : F.Double) (pose aim : Point F) → IsSpeed (steer_to F yaw pose aim).0
  steer_to-IsSpeed yaw pose aim = steer-IsSpeed _ _ _

  record IsPaced (r : ℕ × F.Double × F.Double) : Type 0 where
    speed : IsSpeed r.1

  pure_pursuit-IsPaced :
      (m : GridMap F) (pose : Point F) (yaw : F.Double) (path : List (Point F)) (idx : ℕ)
      (lookahead : F.Double)
      → IsPaced (pure_pursuit F m pose yaw path idx lookahead)
  unfolding pure_pursuit
  pure_pursuit-IsPaced m pose yaw path idx lookahead =
      let next = advance_idx F path idx pose in
      let aim = aim_point F m path next pose (look_length F lookahead (drop next path)) in
      if-both IsPaced (leb (length path) idx) (record { speed = halt })
        (if-both IsPaced (leb (length path) next) (record { speed = halt })
          (record { speed = steer_to-IsSpeed yaw pose aim }))

  -- The forward speed is always one of 0, 0.10, 0.12 and 0.28.
  pub pure_pursuit-IsSpeed :
      (m : GridMap F) (pose : Point F) (yaw : F.Double) (path : List (Point F)) (idx : ℕ)
      (lookahead : F.Double)
      → IsSpeed (pure_pursuit F m pose yaw path idx lookahead).1
  pure_pursuit-IsSpeed m pose yaw path idx lookahead =
      (pure_pursuit-IsPaced m pose yaw path idx lookahead).speed
