-- ===== src/Robot/Invariant/Ticks.antt =====
-- Safety and the simulation's timer (sim/src/fake_robot.cpp, tick).
use bot_cock_pit.Prelude.{ℕ, ◌≡◌, refl, true, not, ◌&&◌, if-both, leb}
use bot_cock_pit.Floats.{Floats}
use bot_cock_pit.Nav.Map.{Point}
use bot_cock_pit.Robot.{Robot, running}
use bot_cock_pit.Robot.Control.{has_error_condition, has_warn_condition}
use bot_cock_pit.Robot.Command.Task.{Planner, is_nil}
use bot_cock_pit.Robot.Drive.{
  Motion, motion, move, note_stuck, replan, check_track, lose_track, note_track, plan_again,
  is_stuck, is_near, is_past_end, is_lost, is_driving, is_resting, finish, lose_path, follow, drive,
  use_battery, pose,
}
use bot_cock_pit.Robot.Tick.{
  check_console, end_start, floor_battery, warn_battery, check_battery, tick, has_low, is_stale,
  elapsed, is_initializing,
}
use bot_cock_pit.Robot.Invariant.Links.{link_down-online}
use bot_cock_pit.Robot.Invariant.{IsSafe, unmoved-IsSafe, recompute-IsSafe, publish_state-IsSafe}

lose_track-IsSafe : {F : Floats} (r : Robot F) → IsSafe (lose_track r)
unfolding lose_track
lose_track-IsSafe r = recompute-IsSafe _ (λ h. cc h)

module _ {F : Floats} (r : Robot F) where
  move-IsSafe :
      (rounds : ℕ) (dt : F.Double) (from : Point F) (m : Motion F)
      → IsSafe r
      → IsSafe (note_stuck dt from m (move rounds dt m r))
  unfolding move note_stuck has_error_condition has_warn_condition
  move-IsSafe rounds dt from m v = unmoved-IsSafe r _ v refl refl refl refl refl refl

  plan_again-IsSafe : (plan : Planner F) → IsSafe r → IsSafe (plan_again plan r)
  unfolding plan_again has_error_condition has_warn_condition
  plan_again-IsSafe plan v = unmoved-IsSafe r _ v refl refl refl refl refl refl

  replan-IsSafe : (plan : Planner F) → IsSafe r → IsSafe (replan plan r)
  unfolding replan
  replan-IsSafe plan v = if-both IsSafe (is_stuck r) (plan_again-IsSafe plan v) v

  finish-IsSafe : IsSafe r → IsSafe (finish r)
  unfolding finish
  finish-IsSafe v = if-both IsSafe (is_near r) (recompute-IsSafe _ (λ h. cc h)) v

  note_track-IsSafe : IsSafe r → IsSafe (note_track r)
  unfolding note_track has_error_condition has_warn_condition
  note_track-IsSafe v = unmoved-IsSafe r _ v refl refl refl refl refl refl

  check_track-IsSafe : IsSafe r → IsSafe (check_track r)
  unfolding check_track
  check_track-IsSafe v =
      if-both IsSafe (is_past_end r) v
        (if-both IsSafe (is_lost r) (lose_track-IsSafe (note_track r)) (note_track-IsSafe v))

  lose_path-IsSafe : IsSafe (lose_path r)
  unfolding lose_path
  lose_path-IsSafe = recompute-IsSafe _ (λ h. cc h)

  use_battery-IsSafe : (amount : F.Double) → IsSafe r → IsSafe (use_battery amount r)
  unfolding use_battery has_error_condition has_warn_condition
  use_battery-IsSafe amount v = unmoved-IsSafe r _ v refl refl refl refl refl refl

  floor_battery-IsSafe : IsSafe r → IsSafe (floor_battery r)
  unfolding floor_battery has_error_condition has_warn_condition
  floor_battery-IsSafe v = unmoved-IsSafe r _ v refl refl refl refl refl refl

  warn_battery-IsSafe : IsSafe r → IsSafe (warn_battery r)
  unfolding warn_battery
  warn_battery-IsSafe v =
      if-both IsSafe (F.lt r.battery (F.lit 15 1) && not (has_low r))
        (recompute-IsSafe _ v.running_online) v

  -- The console's silence is taken like its message that it is offline.
  check_console-online :
      (r.phase ≡ running → r.console_online ≡ true)
      → (check_console r).phase ≡ running
      → (check_console r).console_online ≡ true
  unfolding check_console
  check_console-online h =
      if-both {A = Robot F} (λ s. s.phase ≡ running → s.console_online ≡ true) (is_stale r)
        (link_down-online r) h

  end_start-online :
      (steady : ℕ)
      → (r.phase ≡ running → r.console_online ≡ true)
      → (end_start steady r).phase ≡ running
      → (end_start steady r).console_online ≡ true
  unfolding end_start
  end_start-online steady h =
      if-both {A = Robot F} (λ s. s.phase ≡ running → s.console_online ≡ true)
        (is_initializing r.phase && leb r.idle_tp steady) (λ e. cc e) h

module _ {F : Floats} (plan : Planner F) (rounds : ℕ) where
  follow-IsSafe : (dt : F.Double) (r : Robot F) → IsSafe r → IsSafe (follow plan rounds dt r)
  unfolding follow
  follow-IsSafe dt r v = finish-IsSafe _ (
      check_track-IsSafe _
        (replan-IsSafe _ plan (move-IsSafe r rounds dt (pose r) (motion rounds dt r) v)))

  drive-IsSafe : (dt : F.Double) (r : Robot F) → IsSafe r → IsSafe (drive plan rounds dt r)
  unfolding drive
  drive-IsSafe dt r v =
      if-both IsSafe (is_driving r)
        (use_battery-IsSafe _ _
          (if-both IsSafe (is_nil r.nav_path) (lose_path-IsSafe r) (follow-IsSafe dt r v)))
        (if-both IsSafe (is_resting r) (use_battery-IsSafe r _ v) v)

  pub tick-IsSafe : (steady : ℕ) (r : Robot F) → IsSafe r → IsSafe (tick plan rounds steady r)
  unfolding tick check_battery
  tick-IsSafe steady r v =
      let r' = record r { last_tick_tp = steady } in
      let online =
        end_start-online (check_console r') steady (check_console-online r' v.running_online) in
      let driven = drive-IsSafe (elapsed steady r) _ (recompute-IsSafe _ online) in
      if-both IsSafe r.active
        (publish_state-IsSafe (warn_battery-IsSafe _ (floor_battery-IsSafe _ driven))) v
