-- ===== src/Robot/Tests.antt =====
-- The robot's theorems at a concrete robot, with whole numbers for the `double`s.
use bot_cock_pit.Prelude.{ℕ, ◌≡◌, refl, true, false, List, [], ◌∷◌, inl, some}
use bot_cock_pit.Text.{Text, codes, text_eq, find_after}
use bot_cock_pit.Floats.Whole.{whole}
use bot_cock_pit.Nav.Map
use bot_cock_pit.Robot.{Robot, idle, estopped, teleop, nothing, no_type, ok, nav_idle}
use bot_cock_pit.Robot.Extract.{extract_string, extract_bool}
use bot_cock_pit.Robot.Control.{
  has_error_condition, has_warn_condition, recompute_phase_and_control, publish_state,
  publish_cmd_result, clear_faults,
}
use bot_cock_pit.Robot.Command.{on_cmd, dispatch, on_reset, recover, on_estop}
use bot_cock_pit.Robot.Command.Task.{Planner, accept}
use bot_cock_pit.Robot.Step.{Event, run}
use bot_cock_pit.Robot.Invariant.{IsSafe}
use bot_cock_pit.Robot.Invariant.Still.{IsHeld}
use bot_cock_pit.Robot.Startup.{IsStarted, startup, run-IsStarted}
use bot_cock_pit.Robot.Standstill.{all_keep, run-IsHeld}
use bot_cock_pit.Robot.Invariant.Callbacks.{IsGuarded, run-IsGuarded}
use bot_cock_pit.Robot.Estop.{Releasing, on_cmd_releases}
use bot_cock_pit.Robot.Recover.{on_estop-again}
use bot_cock_pit.Robot.Reset.{IsReset, on_cmd-IsReset}
use bot_cock_pit.Robot.Replies.{Answered, dispatch-Answered}

-- A way that goes straight to the goal.
abbrev straight : Planner whole
straight nav_map from goal = from ∷ goal ∷ []

abbrev resting : Robot whole
resting = record {
  active = true;
  phase = idle;
  mode = teleop;
  estop = false;
  control_enabled = true;
  console_online = true;
  last_console_ms = 0;
  pose_x = 1;
  pose_y = 0;
  pose_yaw = 0;
  battery = 100;
  task_id = [];
  task_type = no_type;
  task_status = nothing;
  goal_x = 0;
  goal_y = 0;
  robot_node = ok;
  bridge_node = ok;
  faults = [];
  nav_map = Map.make_corridor_demo whole;
  nav_path = [];
  trail = [];
  nav_idx = 0;
  nav_status = nav_idle;
  nav_ready = false;
  track_err = 0;
  track_err_max = 0;
  stuck_s = 0;
  stuck_count = 0;
  task_seq = 0;
  idle_tp = 0;
  last_tick_tp = 0;
  topics = true;
  now_ms = 0;
  outbox = [];
}

resting-IsSafe : IsSafe resting
unfolding has_error_condition has_warn_condition
resting-IsSafe = record {
  estop_holds = λ e. cc e;
  estop_only = λ e. cc e;
  running_online = λ e. refl;
  running_sound = λ e. refl;
  idle_sound = λ e. refl;
  idle_calm = λ e. refl;
  control_idle = λ e. refl;
  control_online = λ e. refl;
}

abbrev goto_msg : Text
goto_msg = codes "{\"seq\":4,\"cmd\":\"CMD_TASK\",\"payload\":{\"type\":\"goto\",\"x\":7,\"y\":2}}"

abbrev reset_msg : Text
reset_msg = codes "{\"seq\":5,\"cmd\":\"CMD_RESET\",\"payload\":{\"confirm\":true}}"

abbrev estop_msg : Text
estop_msg = codes "{\"seq\":6,\"cmd\":\"CMD_ESTOP\",\"payload\":{}}"

abbrev drill : List (ℕ × Event)
drill =
    (10, Event.cmd goto_msg)
    ∷ (20, Event.cmd estop_msg)
    ∷ (30, Event.console (codes "{\"online\":false}"))
    ∷ (35, Event.tick 35)
    ∷ (40, Event.cmd reset_msg)
    ∷ (50, Event.deactivate)
    ∷ (60, Event.cleanup)
    ∷ (70, Event.cmd goto_msg)
    ∷ (80, Event.configure)
    ∷ []

run-IsGuarded_example : IsGuarded (run straight 9 drill resting)
run-IsGuarded_example = run-IsGuarded straight 9 drill resting (inl resting-IsSafe)

abbrev halted : Robot whole
halted = record resting { estop = true; phase = estopped; control_enabled = false; topics = false }

reset_frees : (on_cmd straight reset_msg halted).estop ≡ false
unfolding on_cmd dispatch on_reset recover extract_string extract_bool recompute_phase_and_control
    text_eq find_after publish_state accept publish_cmd_result clear_faults
reset_frees = refl

on_cmd_releases_example : Releasing halted reset_msg
on_cmd_releases_example = on_cmd_releases halted refl straight reset_msg reset_frees

reset_named : extract_string reset_msg (codes "cmd") ≡ some (codes "CMD_RESET")
unfolding extract_string find_after
reset_named = refl

on_cmd-IsReset_example : IsReset halted reset_msg (on_cmd straight reset_msg halted)
on_cmd-IsReset_example = on_cmd-IsReset straight reset_msg halted reset_named

on_estop-again_example : (on_estop 8 (on_estop 7 resting)).faults ≡ (on_estop 7 resting).faults
on_estop-again_example = on_estop-again 7 8 resting

dispatch-Answered_example :
    Answered (9 ∷ []) (dispatch straight (codes "CMD_TASK") 9 goto_msg resting)
dispatch-Answered_example =
    dispatch-Answered straight resting (record { topics = refl; replies = refl }) 9
      (codes "CMD_TASK") goto_msg

abbrev unconfirmed_msg : Text
unconfirmed_msg = codes "{\"seq\":5,\"cmd\":\"CMD_RESET\",\"payload\":{\"confirm\":false}}"

abbrev siege : List (ℕ × Event)
siege =
    (10, Event.cmd goto_msg)
    ∷ (20, Event.cmd unconfirmed_msg)
    ∷ (30, Event.console (codes "{\"online\":false}"))
    ∷ (35, Event.tick 35)
    ∷ (40, Event.activate 40)
    ∷ (50, Event.tick 50)
    ∷ []

siege_keeps : all_keep siege ≡ true
unfolding extract_string extract_bool text_eq find_after
siege_keeps = refl

abbrev listening : Robot whole
listening = record halted { topics = true }

run-IsHeld_example : IsHeld listening (run straight 9 siege listening)
run-IsHeld_example = run-IsHeld straight 9 siege listening refl siege_keeps

run-IsStarted_example : IsStarted (run straight 9 (startup 10 20 30 700 5 600) halted)
run-IsStarted_example = run-IsStarted straight 9 halted 10 20 30 700 5 600 refl refl refl refl
