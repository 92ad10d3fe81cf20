-- ===== src/Robot/Step.antt =====
-- The robot as its executor drives it: one callback at a time, under the lock
-- (sim/src/fake_robot.cpp). `rounds` bounds the tracker's search along the path.
use bot_cock_pit.Prelude.{ℕ, List, [], ◌∷◌, if◌then◌else◌}
use bot_cock_pit.Text.{Text}
use bot_cock_pit.Floats.{Floats}
use bot_cock_pit.Robot.{Robot}
use bot_cock_pit.Robot.Lifecycle.{
  on_configure, on_activate, on_deactivate, on_cleanup, on_shutdown, on_console,
}
use bot_cock_pit.Robot.Command.{on_cmd}
use bot_cock_pit.Robot.Command.Task.{Planner}
use bot_cock_pit.Robot.Tick

-- A message on `botcockpit/cmd` or `botcockpit/console`, which reaches a robot that has its
-- subscriptions, a transition of the lifecycle, or the timer.
pub data Event : Type 0 where
  cmd : Text → Event
  console : Text → Event
  configure : Event
  activate : ℕ → Event
  deactivate : Event
  cleanup : Event
  shutdown : Event
  tick : ℕ → Event

module _ {F : Floats} (plan : Planner F) (rounds : ℕ) where
  abbrev pub handle : Event → Robot F → Robot F
  handle (cmd msg) r = if r.topics then on_cmd plan msg r else r
  handle (console msg) r = if r.topics then on_console msg r else r
  handle configure r = on_configure r
  handle (activate steady) r = on_activate steady r
  handle deactivate r = on_deactivate r
  handle cleanup r = on_cleanup r
  handle shutdown r = on_shutdown r
  handle (tick steady) r = Tick.tick plan rounds steady r

  -- An event and the time that the wall clock shows when it is handled.
  unfoldable pub step : ℕ × Event → Robot F → Robot F
  step (now, e) r = handle e (record r { now_ms = now })

  unfoldable pub run : List (ℕ × Event) → Robot F → Robot F
  unfolding step
  run [] r = r
  run (e ∷ es) r = run es (step e r)
