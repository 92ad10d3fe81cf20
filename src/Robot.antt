-- ===== src/Robot.antt =====
-- The simulated robot's state (sim/include/botcockpit_sim/fake_robot.hpp, FakeRobot). A member
-- string that only ever holds one of a few literals is an enumeration.
pub mod Extract
pub mod Message
pub mod Words
pub mod Control
pub mod Lifecycle
pub mod Invariant
pub mod Command
pub mod Drive
pub mod Tick
pub mod Step
pub mod Held
pub mod Estop
pub mod Standstill
pub mod Startup
pub mod Recover
pub mod Reset
pub mod Replies
mod Tests
use bot_cock_pit.Prelude.{ℕ, Bool, List}
use bot_cock_pit.Text.{Text}
use bot_cock_pit.Floats.{Floats}
use bot_cock_pit.Nav.Map.{GridMap, Point}

pub data Phase : Type 0 where
  boot initializing idle running degraded fault estopped : Phase

pub data Mode : Type 0 where
  teleop auto remote : Mode

pub data TaskStatus : Type 0 where
  nothing accepted executing done failed : TaskStatus

-- `task_type_` is empty or "goto".
pub data TaskType : Type 0 where
  no_type goto : TaskType

pub data NavStatus : Type 0 where
  nav_idle planning tracking nav_failed : NavStatus

pub data Health : Type 0 where
  ok warn error lost : Health

pub data Level : Type 0 where
  info_level warn_level error_level : Level

pub data Code : Type 0 where
  node_timeout task_failed estop_active battery_low : Code

-- Every fault of the program is raised for the node "fake_robot".
pub record FaultItem : Type 0 where
  pub code : Code
  pub level : Level
  pub detail : Text
  pub active : Bool

pub data Verdict : Type 0 where
  accepts rejects finishes : Verdict

pub data Reason : Type 0 where
  no_reason confirm_required phase_busy invalid_payload active_estop unknown_task not_implemented :
      Reason

-- The arguments of `publish_cmd_result`.
pub record CmdResult : Type 0 where
  pub seq : ℕ  -- uint16_t
  pub cmd : Text
  pub ok : Bool
  pub status : Verdict
  pub reason : Reason
  pub task_id : Text

-- What is published, on `botcockpit/state` and on `botcockpit/cmd_result`.
pub data Output : Type 0 where
  state_json : Text → Output
  cmd_result : CmdResult → Output

-- `nodes_` always holds "fake_robot" and "bridge", in this order: `robot_node` and `bridge_node`
-- are their statuses. `topics` says whether the publishers and the subscriptions exist, which
-- the source makes and drops together. `now_ms` is the clock that the current callback reads, and
-- `outbox` what has been published, the newest first.
pub record Robot (F : Floats) : Type 0 where
  pub active : Bool
  pub phase : Phase
  pub mode : Mode
  pub estop : Bool
  pub control_enabled : Bool
  pub console_online : Bool
  pub last_console_ms : ℕ
  pub pose_x : F.Double
  pub pose_y : F.Double
  pub pose_yaw : F.Double
  pub battery : F.Double
  pub task_id : Text
  pub task_type : TaskType
  pub task_status : TaskStatus
  pub goal_x : F.Double
  pub goal_y : F.Double
  pub robot_node : Health
  pub bridge_node : Health
  pub faults : List FaultItem
  pub nav_map : GridMap F
  pub nav_path : List (Point F)
  pub trail : List (Point F)
  pub nav_idx : ℕ
  pub nav_status : NavStatus
  pub nav_ready : Bool
  pub track_err : F.Double
  pub track_err_max : F.Double
  pub stuck_s : F.Double
  pub stuck_count : ℕ
  pub task_seq : ℕ
  pub idle_tp : ℕ  -- ms of the steady clock
  pub last_tick_tp : ℕ
  pub topics : Bool
  pub now_ms : ℕ
  pub outbox : List Output
