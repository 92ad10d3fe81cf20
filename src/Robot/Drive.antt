-- ===== src/Robot/Drive.antt =====
-- The drive along the path (sim/src/fake_robot.cpp, tick). `rounds` is the fuel of the loops that
-- bring an angle into range.
use bot_cock_pit.Prelude.{
  ℕ, suc, ◌+◌, ◌-◌, Bool, true, false, not, ◌&&◌, ◌||◌, List, [], ◌∷◌, ◌++◌, if◌then◌else◌, ltb,
  leb, length, get_or, drop, min,
}
use bot_cock_pit.Text.{codes}
use bot_cock_pit.Floats.{Floats}
use bot_cock_pit.Nav.Map
use bot_cock_pit.Nav.Map.{Point, is_free}
use bot_cock_pit.Nav.Track.{
  larger, sign_of, back, wrap_angle, heading_err, advance_idx, aim_point, pure_pursuit,
}
use bot_cock_pit.Robot.{
  Robot, idle, executing, failed, done, nav_idle, tracking, nav_failed, task_failed, error_level,
}
use bot_cock_pit.Robot.Control.{is_running, is_idle, recompute_phase_and_control}
use bot_cock_pit.Robot.Command.Task.{Planner, is_goto, is_nil}

module _ (F : Floats) where
  -- `FakeRobot::dist`.
  abbrev pub dist : Point F → Point F → F.Double
  dist p q =
      let dx = F.sub q.0 p.0 in let dy = F.sub q.1 p.1 in F.sqrt (F.add (F.mul dx dx) (F.mul dy dy))

  -- Where the robot drives, how fast it turns, and whether an obstacle kept it where it was.
  pub record Motion : Type 0 where
    pub to : Point F
    pub turn : F.Double
    pub collided : Bool
    pub idx : ℕ

  -- The trail with a new end, if it is farther than `gap` from the old one.
  abbrev pub far : F.Double → Point F → List (Point F) → Bool
  far gap p [] = true
  far gap p (q ∷ qs) = F.lt gap (dist (back F q qs) p)

  unfoldable pub leave_crumb : Point F → List (Point F) → List (Point F)
  leave_crumb p trail =
      let longer = trail ++ p ∷ [] in
      if far (F.lit 5 100) p trail
      then (if ltb 800 (length longer) then drop 200 longer else longer)
      else trail

module _ {F : Floats} where
  abbrev pub pose : Robot F → Point F
  pose r = (r.pose_x, r.pose_y)

  abbrev pub goal : Robot F → Point F
  goal r = (r.goal_x, r.goal_y)

  -- An obstacle in the way: the robot turns towards its aim where it stands.
  unfoldable pub turn_away : ℕ → ℕ → F.Double → Robot F → Motion F
  turn_away rounds idx w r =
      let aim = aim_point F r.nav_map r.nav_path idx (pose r) (F.lit 45 100) in
      let err = heading_err F rounds r.pose_yaw (pose r) aim in
      let side =
        if F.lt (F.abs err) (F.lit 15 100)
        then sign_of F (F.le (F.lit 0 1) w)
        else sign_of F (F.le (F.lit 0 1) err) in
      record { to = pose r; turn = F.mul side (F.lit 8 10); collided = true; idx = idx }

  unfoldable pub motion : ℕ → F.Double → Robot F → Motion F
  unfolding turn_away
  motion rounds dt r =
      let (idx, v, w) =
        pure_pursuit F r.nav_map (pose r) r.pose_yaw r.nav_path r.nav_idx (F.lit 45 100) in
      let x = F.add r.pose_x (F.mul (F.mul v (F.cos r.pose_yaw)) dt) in
      let y = F.add r.pose_y (F.mul (F.mul v (F.sin r.pose_yaw)) dt) in
      let d_now = dist F (pose r) (goal r) in
      let d_next = dist F (x, y) (goal r) in
      let final_creep = F.lt d_now (F.lit 55 100) && F.lt d_next d_now in
      if not final_creep && not (is_free r.nav_map x y)
      then turn_away rounds idx w r
      else record { to = (x, y); turn = w; collided = false; idx = idx }

  unfoldable pub move : ℕ → F.Double → Motion F → Robot F → Robot F
  unfolding leave_crumb
  move rounds dt m r = record r {
    nav_idx = m.idx;
    pose_x = m.to.0;
    pose_y = m.to.1;
    pose_yaw = wrap_angle F rounds (F.add r.pose_yaw (F.mul m.turn dt));
    trail = leave_crumb F m.to r.trail;
    task_status = executing;
    nav_status = tracking;
  }

  -- The seconds for which the robot has neither moved nor turned freely; `from` is where it was.
  unfoldable pub note_stuck : F.Double → Point F → Motion F → Robot F → Robot F
  note_stuck dt from m r =
      let moved = dist F from (pose r) in
      let translating =
        F.lt (F.mul (F.lit 2 1000) (larger F (F.lit 1 1) (F.div dt (F.lit 2 10)))) moved in
      let aligning = not m.collided && F.lt (F.lit 5 100) (F.abs m.turn) && not translating in
      record r { stuck_s = if translating || aligning then F.lit 0 1 else F.add r.stuck_s dt }

  abbrev pub is_stuck : Robot F → Bool
  is_stuck r = F.lt (F.lit 12 10) r.stuck_s

  -- A new plan, on a thinner body after repeats; the old path stays if there is none.
  unfoldable pub plan_again : Planner F → Robot F → Robot F
  plan_again plan r =
      let count = suc r.stuck_count in
      let nav_map = Map.inflate (if leb 3 count then 0 else 1) (Map.make_corridor_demo F) in
      let path = plan nav_map (pose r) (goal r) in
      let none = is_nil path in
      record r {
        stuck_s = F.lit 0 1;
        stuck_count = count;
        nav_map = nav_map;
        nav_path = if none then r.nav_path else path;
        nav_idx = if none then r.nav_idx else advance_idx F path 0 (pose r);
        nav_status = if none then r.nav_status else tracking;
      }

  unfoldable pub replan : Planner F → Robot F → Robot F
  unfolding plan_again
  replan plan r = if is_stuck r then plan_again plan r else r

  -- The distance from the segment of the path that the robot is on.
  abbrev cross_error : Robot F → F.Double
  cross_error r =
      let a = get_or r.nav_path r.nav_idx (pose r) in
      let b = get_or r.nav_path (min (r.nav_idx + 1) (length r.nav_path - 1)) (pose r) in
      let abx = F.sub b.0 a.0 in
      let aby = F.sub b.1 a.1 in
      let apx = F.sub r.pose_x a.0 in
      let apy = F.sub r.pose_y a.1 in
      let ab2 = F.add (F.mul abx abx) (F.mul aby aby) in
      if F.lt (F.lit 1 1000000) ab2
      then F.div (F.abs (F.sub (F.mul abx apy) (F.mul aby apx))) (F.sqrt ab2)
      else dist F (pose r) a

  unfoldable pub lose_track : Robot F → Robot F
  lose_track r = recompute_phase_and_control (record r {
    task_status = failed;
    phase = idle;
    nav_status = nav_failed;
    faults =
        r.faults
        ++ record {
          code = task_failed;
          level = error_level;
          detail = codes "tracking error too large";
          active = true;
        }
          ∷ [];
  })

  unfoldable pub note_track : Robot F → Robot F
  note_track r =
      let cr = cross_error r in
      record r {
        track_err = cr;
        track_err_max = if F.lt r.track_err_max cr then cr else r.track_err_max;
      }

  abbrev pub is_past_end : Robot F → Bool
  is_past_end r = leb (length r.nav_path) r.nav_idx

  abbrev pub is_lost : Robot F → Bool
  is_lost r = F.lt (F.lit 15 10) (cross_error r)

  unfoldable pub check_track : Robot F → Robot F
  unfolding lose_track note_track
  check_track r =
      if is_past_end r then r else if is_lost r then lose_track (note_track r) else note_track r

  abbrev pub is_near : Robot F → Bool
  is_near r = F.lt (dist F (pose r) (goal r)) (F.lit 22 100)

  -- Near the goal: the robot is set on it, and the task is done.
  unfoldable pub finish : Robot F → Robot F
  finish r =
      if is_near r
      then recompute_phase_and_control (record r {
        pose_x = r.goal_x;
        pose_y = r.goal_y;
        trail = if far F (F.lit 2 100) (goal r) r.trail then r.trail ++ goal r ∷ [] else r.trail;
        track_err = F.lit 0 1;
        task_status = done;
        phase = idle;
        nav_status = nav_idle;
        stuck_s = F.lit 0 1;
        stuck_count = 0;
      })
      else r

  -- No path to follow.
  unfoldable pub lose_path : Robot F → Robot F
  lose_path r =
      recompute_phase_and_control
        (record r { task_status = failed; phase = idle; nav_status = nav_failed })

  unfoldable pub follow : Planner F → ℕ → F.Double → Robot F → Robot F
  unfolding motion move note_stuck replan check_track finish
  follow plan rounds dt r =
      let m = motion rounds dt r in
      finish (check_track (replan plan (note_stuck dt (pose r) m (move rounds dt m r))))

  unfoldable pub use_battery : F.Double → Robot F → Robot F
  use_battery amount r = record r { battery = F.sub r.battery amount }

  abbrev pub is_driving : Robot F → Bool
  is_driving r = not r.estop && is_running r.phase && is_goto r.task_type

  abbrev pub is_resting : Robot F → Bool
  is_resting r = not r.estop && is_idle r.phase

  unfoldable pub drive : Planner F → ℕ → F.Double → Robot F → Robot F
  unfolding follow lose_path use_battery
  drive plan rounds dt r =
      let driven = if is_nil r.nav_path then lose_path r else follow plan rounds dt r in
      if is_driving r
      then use_battery (F.mul (F.lit 5 100) dt) driven
      else if is_resting r
      then use_battery (F.mul (F.lit 2 100) dt) r
      else r
