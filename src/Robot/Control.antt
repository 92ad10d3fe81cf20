-- ===== src/Robot/Control.antt =====
-- Phase and control of the robot (sim/src/fake_robot.cpp, has_error_condition to
-- apply_safety_stop, publish_state, publish_cmd_result, inject_fault and clear_faults).
use bot_cock_pit.Prelude.{Bool, true, false, not, ◌&&◌, ◌||◌, List, [], ◌∷◌, ◌++◌, if◌then◌else◌}
use bot_cock_pit.Text.{Text}
use bot_cock_pit.Floats.{Floats}
use bot_cock_pit.Robot.{
  Robot, Phase, boot, initializing, idle, running, degraded, fault, estopped, TaskStatus, accepted,
  executing, failed, no_type, Health, ok, warn, error, lost, Level, warn_level, error_level,
  node_timeout, FaultItem, CmdResult, state_json, cmd_result,
}
use bot_cock_pit.Robot.Message.{build_state_json}

abbrev pub is_error : Level → Bool
is_error error_level = true
is_error _ = false

abbrev pub is_warn : Level → Bool
is_warn warn_level = true
is_warn _ = false

abbrev pub any_fault : (FaultItem → Bool) → List FaultItem → Bool
any_fault p [] = false
any_fault p (f ∷ fs) = p f || any_fault p fs

abbrev pub is_broken : Health → Bool
is_broken error = true
is_broken lost = true
is_broken _ = false

abbrev pub is_warned : Health → Bool
is_warned warn = true
is_warned _ = false

abbrev pub is_running : Phase → Bool
is_running running = true
is_running _ = false

abbrev pub is_idle : Phase → Bool
is_idle idle = true
is_idle _ = false

abbrev pub is_starting : Phase → Bool
is_starting boot = true
is_starting initializing = true
is_starting _ = false

-- FAULT, DEGRADED or ESTOP.
abbrev is_halted : Phase → Bool
is_halted fault = true
is_halted degraded = true
is_halted estopped = true
is_halted _ = false

-- ACCEPTED or EXECUTING.
abbrev pub is_pending : TaskStatus → Bool
is_pending accepted = true
is_pending executing = true
is_pending _ = false

abbrev pub fail_pending : TaskStatus → TaskStatus
fail_pending s = if is_pending s then failed else s

module _ {F : Floats} where
  unfoldable pub has_error_condition : Robot F → Bool
  has_error_condition r =
      any_fault (λ f. f.active && is_error f.level) r.faults || is_broken r.robot_node

  unfoldable pub has_warn_condition : Robot F → Bool
  has_warn_condition r =
      any_fault (λ f. f.active && is_warn f.level) r.faults || is_warned r.robot_node

  fault_state : Robot F → Robot F
  fault_state r = record r {
    task_status = if is_running r.phase then failed else r.task_status;
    phase = fault;
    control_enabled = false;
    robot_node = error;
  }

  warn_state : Robot F → Robot F
  warn_state r = record r {
    phase = if is_running r.phase then running else degraded;
    control_enabled = false;
    robot_node = warn;
  }

  -- `s` has its node set to OK.
  leave_halt : Robot F → Robot F
  unfolding has_error_condition has_warn_condition
  leave_halt s =
      if is_halted s.phase
        && (not s.estop && not (has_error_condition s) && not (has_warn_condition s))
      then record s { phase = idle }
      else s

  set_control : Robot F → Robot F
  set_control s =
      if is_idle s.phase
      then record s { control_enabled = s.console_online }
      else if is_running s.phase
      then record s { control_enabled = false }
      else s

  unfoldable pub recompute_phase_and_control : Robot F → Robot F
  unfolding has_error_condition has_warn_condition fault_state warn_state leave_halt set_control
  recompute_phase_and_control r =
      if r.estop
      then record r { phase = estopped; control_enabled = false }
      else if is_starting r.phase
      then record r { control_enabled = false }
      else if has_error_condition r
      then fault_state r
      else if has_warn_condition r
      then warn_state r
      else set_control (leave_halt (record r { robot_node = ok }))

  unfoldable pub publish_state : Robot F → Robot F
  publish_state r =
      if r.topics then record r { outbox = state_json (build_state_json r) ∷ r.outbox } else r

  unfoldable pub publish_cmd_result : CmdResult → Robot F → Robot F
  publish_cmd_result c r = if r.topics then record r { outbox = cmd_result c ∷ r.outbox } else r

  unfoldable pub apply_safety_stop : Robot F → Robot F
  apply_safety_stop r =
      let stopped = record r {
        task_status = fail_pending r.task_status;
        phase = if is_running r.phase then idle else r.phase;
        task_type = no_type;
      } in
      let s = recompute_phase_and_control stopped in
      publish_state (if s.console_online then s else record s { control_enabled = false })

  unfoldable pub inject_fault : Text → Robot F → Robot F
  inject_fault detail r = recompute_phase_and_control (record r {
    faults =
        r.faults
        ++ record { code = node_timeout; level = error_level; detail = detail; active = true } ∷ [];
    robot_node = error;
    task_status = fail_pending r.task_status;
  })

  -- Only the robot's own node is set to OK.
  unfoldable pub clear_faults : Robot F → Robot F
  clear_faults r = record r {
    faults = [];
    robot_node = if is_broken r.robot_node || is_warned r.robot_node then ok else r.robot_node;
  }
