-- ===== src/Robot/Tick.antt =====
-- The simulation's timer (sim/src/fake_robot.cpp, tick): the console's heartbeat, the drive and the
-- battery.
use bot_cock_pit.Prelude.{
  ℕ, ◌+◌, ◌-◌, ◌%◌, ◌^◌, Bool, true, false, not, ◌&&◌, [], ◌∷◌, ◌++◌, if◌then◌else◌, ltb, leb,
}
use bot_cock_pit.Int.{pos}
use bot_cock_pit.Text.{codes}
use bot_cock_pit.Floats.{Floats}
use bot_cock_pit.Robot.{Robot, Phase, initializing, idle, Code, battery_low, warn_level}
use bot_cock_pit.Robot.Control.{any_fault, recompute_phase_and_control, publish_state}
use bot_cock_pit.Robot.Lifecycle.{link_down}
use bot_cock_pit.Robot.Command.Task.{Planner}
use bot_cock_pit.Robot.{FaultItem}
use bot_cock_pit.Robot.Drive.{drive}

abbrev pub is_initializing : Phase → Bool
is_initializing initializing = true
is_initializing _ = false

abbrev pub is_low : Code → Bool
is_low battery_low = true
is_low _ = false

abbrev pub low_fault : FaultItem
low_fault = record {
  code = battery_low;
  level = warn_level;
  detail = codes "battery below 15%";
  active = true;
}

module _ {F : Floats} where
  abbrev pub is_stale : Robot F → Bool
  is_stale r =
      let silence = (r.now_ms + (2 ^ 64 - r.last_console_ms)) % 2 ^ 64 in
      r.console_online && (ltb 0 r.last_console_ms && ltb 3000 silence)

  -- A console that has been silent for three seconds is treated as one that says it is offline.
  unfoldable pub check_console : Robot F → Robot F
  check_console r = if is_stale r then link_down r else r

  unfoldable pub end_start : ℕ → Robot F → Robot F
  end_start steady r =
      if is_initializing r.phase && leb r.idle_tp steady then record r { phase = idle } else r

  unfoldable pub floor_battery : Robot F → Robot F
  floor_battery r = record r {
    battery = if F.lt r.battery (F.lit 0 1) then F.lit 0 1 else r.battery;
  }

  abbrev pub has_low : Robot F → Bool
  has_low r = any_fault (λ f. is_low f.code && f.active) r.faults

  unfoldable pub warn_battery : Robot F → Robot F
  warn_battery r =
      if F.lt r.battery (F.lit 15 1) && not (has_low r)
      then recompute_phase_and_control (record r { faults = r.faults ++ low_fault ∷ [] })
      else r

  unfoldable pub check_battery : Robot F → Robot F
  unfolding floor_battery warn_battery
  check_battery r = warn_battery (floor_battery r)

  -- The seconds since the last tick.
  abbrev pub elapsed : ℕ → Robot F → F.Double
  elapsed steady r =
      if ltb 0 r.last_tick_tp
      then F.div (F.of_int (pos (steady - r.last_tick_tp))) (F.lit 1000 1)
      else F.lit 2 10

  unfoldable pub tick : Planner F → ℕ → ℕ → Robot F → Robot F
  unfolding check_console end_start drive check_battery
  tick plan rounds steady r =
      let dt = elapsed steady r in
      let s = end_start steady (check_console (record r { last_tick_tp = steady })) in
      let t = drive plan rounds dt (recompute_phase_and_control s) in
      if r.active then publish_state (check_battery t) else r
