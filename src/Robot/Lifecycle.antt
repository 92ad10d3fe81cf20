-- ===== src/Robot/Lifecycle.antt =====
-- The lifecycle callbacks and the console's heartbeat (sim/src/fake_robot.cpp, on_configure to
-- on_console).
use bot_cock_pit.Prelude.{ℕ, ◌+◌, true, false, [], if◌then◌else◌}
use mathlib.Core.Option
use bot_cock_pit.Text.{Text, codes}
use bot_cock_pit.Floats.{Floats}
use bot_cock_pit.Robot.{Robot, boot, initializing, nothing, no_type, nav_idle, ok, warn}
use bot_cock_pit.Robot.Extract.{extract_bool}
use bot_cock_pit.Robot.Control.{
  is_running, recompute_phase_and_control, publish_state, apply_safety_stop, clear_faults,
}

module _ {F : Floats} where
  unfoldable pub on_configure : Robot F → Robot F
  on_configure r =
      let cleared = clear_faults (record r {
        phase = initializing;
        control_enabled = false;
        estop = false;
        console_online = false;
        battery = F.lit 100 1;
        pose_x = F.lit 125 100;
        pose_y = F.lit 0 1;
        pose_yaw = F.lit 0 1;
        task_status = nothing;
        task_id = [];
        task_type = no_type;
        nav_path = [];
        trail = [];
        nav_status = nav_idle;
      }) in
      publish_state (record cleared { robot_node = ok; bridge_node = ok; topics = true })

  -- `steady` is the steady clock, in milliseconds.
  unfoldable pub on_activate : ℕ → Robot F → Robot F
  on_activate steady r = publish_state (record r {
    active = true;
    phase = initializing;
    control_enabled = false;
    idle_tp = steady + 500;
    last_tick_tp = steady;
  })

  unfoldable pub on_deactivate : Robot F → Robot F
  on_deactivate r = record r { active = false; control_enabled = false; phase = initializing }

  unfoldable pub on_cleanup : Robot F → Robot F
  on_cleanup r = record r { topics = false; phase = boot; active = false }

  unfoldable pub on_shutdown : Robot F → Robot F
  on_shutdown r = on_cleanup r

  unfoldable pub link_up : Robot F → Robot F
  link_up r = record r { console_online = true; last_console_ms = r.now_ms; bridge_node = ok }

  -- A lost link stops a running task.
  unfoldable pub link_down : Robot F → Robot F
  link_down r =
      let s = record r { console_online = false; bridge_node = warn } in
      if is_running s.phase then apply_safety_stop s else s

  unfoldable pub on_console : Text → Robot F → Robot F
  on_console msg r =
      let online = Option.get_or (extract_bool msg (codes "online")) false in
      let s = recompute_phase_and_control (if online then link_up r else link_down r) in
      publish_state (if s.console_online then s else record s { control_enabled = false })
