-- ===== src/Robot/Invariant/Still.antt =====
-- A stopped robot and the simulation's timer (sim/src/fake_robot.cpp, tick).
use bot_cock_pit.Prelude.{
  ℕ, ◌≡◌, refl, ◌∙◌, true, false, not, ◌&&◌, arith, if◌then◌else◌, if-both, if-intro, leb,
}
use bot_cock_pit.Floats.{Floats}
use bot_cock_pit.Robot.{Robot, warn, idle, no_type}
use bot_cock_pit.Robot.Control.{
  recompute_phase_and_control, publish_state, apply_safety_stop, is_running, fail_pending,
}
use bot_cock_pit.Robot.Lifecycle.{link_down}
use bot_cock_pit.Robot.Command.Task.{Planner}
use bot_cock_pit.Robot.Drive.{drive, is_driving, is_resting, use_battery}
use bot_cock_pit.Robot.Tick.{
  check_console, end_start, floor_battery, warn_battery, check_battery, tick, has_low, is_stale,
  elapsed, is_initializing,
}

-- The robot stands where it stood, and is still stopped.
pub record IsHeld {F : Floats} (r s : Robot F) : Type 0 where
  pub pose_x : s.pose_x ≡ r.pose_x
  pub pose_y : s.pose_y ≡ r.pose_y
  pub pose_yaw : s.pose_yaw ≡ r.pose_yaw
  pub stopped : s.estop ≡ true

pub stopped-IsHeld : {F : Floats} (r : Robot F) → r.estop ≡ true → IsHeld r r
stopped-IsHeld r e = record { pose_x = refl; pose_y = refl; pose_yaw = refl; stopped = e }

module _ {F : Floats} (r : Robot F) where
  pub carry-IsHeld :
      (s t : Robot F)
      → IsHeld r s
      → t.pose_x ≡ s.pose_x
      → t.pose_y ≡ s.pose_y
      → t.pose_yaw ≡ s.pose_yaw
      → t.estop ≡ s.estop
      → IsHeld r t
  carry-IsHeld s t h x y yaw e = record {
    pose_x = x ∙ h.pose_x;
    pose_y = y ∙ h.pose_y;
    pose_yaw = yaw ∙ h.pose_yaw;
    stopped = e ∙ h.stopped;
  }

  pub recompute-IsHeld : (s : Robot F) → IsHeld r s → IsHeld r (recompute_phase_and_control s)
  unfolding recompute_phase_and_control
  recompute-IsHeld s h =
      let e = h.stopped in
      if-intro (IsHeld r) s.estop (λ _. carry-IsHeld s _ h refl refl refl refl)
        (λ k. absurd (ground (arith, e, k)))

  pub publish_state-IsHeld : (s : Robot F) → IsHeld r s → IsHeld r (publish_state s)
  unfolding publish_state
  publish_state-IsHeld s h = if-both (IsHeld r) s.topics (carry-IsHeld s _ h refl refl refl refl) h

  apply_safety_stop-IsHeld : (s : Robot F) → IsHeld r s → IsHeld r (apply_safety_stop s)
  unfolding apply_safety_stop
  apply_safety_stop-IsHeld s h =
      let t = record s {
        task_status = fail_pending s.task_status;
        phase = if is_running s.phase then idle else s.phase;
        task_type = no_type;
      } in
      let u = recompute_phase_and_control t in
      let held = recompute-IsHeld t (carry-IsHeld s t h refl refl refl refl) in
      publish_state-IsHeld _
        (if-both (IsHeld r) u.console_online held (carry-IsHeld u _ held refl refl refl refl))

  pub link_down-IsHeld : (s : Robot F) → IsHeld r s → IsHeld r (link_down s)
  unfolding link_down
  link_down-IsHeld s h =
      let t = record s { console_online = false; bridge_node = warn } in
      let held = carry-IsHeld s t h refl refl refl refl in
      if-both (IsHeld r) (is_running s.phase) {x = apply_safety_stop t} {y = t}
        (apply_safety_stop-IsHeld t held) held

  check_console-IsHeld : (s : Robot F) → IsHeld r s → IsHeld r (check_console s)
  unfolding check_console
  check_console-IsHeld s h = if-both (IsHeld r) (is_stale s) (link_down-IsHeld s h) h

  end_start-IsHeld : (steady : ℕ) (s : Robot F) → IsHeld r s → IsHeld r (end_start steady s)
  unfolding end_start
  end_start-IsHeld steady s h =
      if-both (IsHeld r) (is_initializing s.phase && leb s.idle_tp steady)
        (carry-IsHeld s _ h refl refl refl refl) h

  drive-IsHeld :
      (plan : Planner F) (rounds : ℕ) (dt : F.Double) (s : Robot F)
      → IsHeld r s
      → IsHeld r (drive plan rounds dt s)
  unfolding drive use_battery
  drive-IsHeld plan rounds dt s h =
      let e = h.stopped in
      if-intro (IsHeld r) (is_driving s) (λ k. absurd (ground (arith, e, k)))
        (λ _. if-both (IsHeld r) (is_resting s) (carry-IsHeld s _ h refl refl refl refl) h)

  check_battery-IsHeld : (s : Robot F) → IsHeld r s → IsHeld r (check_battery s)
  unfolding check_battery floor_battery warn_battery
  check_battery-IsHeld s h =
      let t = floor_battery s in
      let held = carry-IsHeld s t h refl refl refl refl in
      if-both (IsHeld r) (F.lt t.battery (F.lit 15 1) && not (has_low t))
        (recompute-IsHeld _ (carry-IsHeld t _ held refl refl refl refl)) held

  -- A tick leaves a stopped robot at its pose, and stopped, whatever the planner, the clock and
  -- the arithmetic are.
  pub tick-IsHeld :
      (plan : Planner F) (rounds steady : ℕ) → r.estop ≡ true → IsHeld r (tick plan rounds steady r)
  unfolding tick
  tick-IsHeld plan rounds steady e =
      let h = stopped-IsHeld r e in
      let timed = record r { last_tick_tp = steady } in
      let started =
        end_start-IsHeld steady _
          (check_console-IsHeld _ (carry-IsHeld r timed h refl refl refl refl)) in
      if-both (IsHeld r) r.active
        (publish_state-IsHeld _ (
          check_battery-IsHeld _
            (drive-IsHeld plan rounds (elapsed steady r) _ (recompute-IsHeld _ started))))
        h
