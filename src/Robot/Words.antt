-- ===== src/Robot/Words.antt =====
-- The literals that the members of the robot hold (sim/src/fake_robot.cpp).
use bot_cock_pit.Prelude.{Bool, true, false, []}
use bot_cock_pit.Text.{Text, codes}
use bot_cock_pit.Robot.{
  Phase, boot, initializing, idle, running, degraded, fault, estopped, Mode, teleop, auto, remote,
  TaskStatus, nothing, accepted, executing, done, failed, TaskType, no_type, goto, NavStatus,
  nav_idle, planning, tracking, nav_failed, Health, ok, warn, error, lost, Level, info_level,
  warn_level, error_level, Code, node_timeout, task_failed, estop_active, battery_low, Verdict,
  accepts, rejects, finishes, Reason, no_reason, confirm_required, phase_busy, invalid_payload,
  active_estop, unknown_task, not_implemented,
}

abbrev pub phase_text : Phase → Text
phase_text boot = codes "BOOT"
phase_text initializing = codes "INITIALIZING"
phase_text idle = codes "IDLE"
phase_text running = codes "RUNNING"
phase_text degraded = codes "DEGRADED"
phase_text fault = codes "FAULT"
phase_text estopped = codes "ESTOP"

abbrev pub mode_text : Mode → Text
mode_text teleop = codes "TELEOP"
mode_text auto = codes "AUTO"
mode_text remote = codes "REMOTE"

abbrev pub task_status_text : TaskStatus → Text
task_status_text nothing = codes "NONE"
task_status_text accepted = codes "ACCEPTED"
task_status_text executing = codes "EXECUTING"
task_status_text done = codes "DONE"
task_status_text failed = codes "FAILED"

abbrev pub task_type_text : TaskType → Text
task_type_text no_type = []
task_type_text goto = codes "goto"

abbrev pub nav_status_text : NavStatus → Text
nav_status_text nav_idle = codes "IDLE"
nav_status_text planning = codes "PLANNING"
nav_status_text tracking = codes "TRACKING"
nav_status_text nav_failed = codes "FAILED"

abbrev pub health_text : Health → Text
health_text ok = codes "OK"
health_text warn = codes "WARN"
health_text error = codes "ERROR"
health_text lost = codes "LOST"

abbrev pub level_text : Level → Text
level_text info_level = codes "INFO"
level_text warn_level = codes "WARN"
level_text error_level = codes "ERROR"

abbrev pub code_text : Code → Text
code_text node_timeout = codes "E_NODE_TIMEOUT"
code_text task_failed = codes "E_TASK_FAILED"
code_text estop_active = codes "E_ESTOP_ACTIVE"
code_text battery_low = codes "W_BATTERY_LOW"

abbrev pub verdict_text : Verdict → Text
verdict_text accepts = codes "ACCEPTED"
verdict_text rejects = codes "REJECTED"
verdict_text finishes = codes "DONE"

abbrev pub reason_text : Reason → Text
reason_text no_reason = []
reason_text confirm_required = codes "confirm_required"
reason_text phase_busy = codes "phase_busy"
reason_text invalid_payload = codes "invalid_payload"
reason_text active_estop = codes "estop_active"
reason_text unknown_task = codes "unknown_task"
reason_text not_implemented = codes "not_implemented"

abbrev pub bool_text : Bool → Text
bool_text true = codes "true"
bool_text false = codes "false"
