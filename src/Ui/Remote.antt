-- ===== src/Ui/Remote.antt =====
-- What the console knows of the robot (ui/botcockpit/src/robotstate.cpp and robotstate.hpp): the
-- state. Its calls are in the child modules.
pub mod Pairs
pub mod Nav
pub mod Apply
pub mod Slots
pub mod Announced
pub mod Control
pub mod Quiet
pub mod Log
pub mod Kept
mod Tests
use bot_cock_pit.Prelude.{
  ℕ, Bool, true, false, not, ◌&&◌, ◌||◌, List, [], ◌∷◌, ◌++◌, map, if◌then◌else◌, length, ◌==◌,
}
use bot_cock_pit.Int.{ℤ, pos, pos_part, neg_part}
use bot_cock_pit.Text.{Text, codes, text_eq}

-- What the code uses of Qt's variants and of `double`: nothing is assumed of it.
pub record Variants : Type 1 where
  pub Map : Type 0
  pub Value : Type 0
  pub Double : Type 0
  pub contains : Map → Text → Bool
  pub value : Map → Text → Value
  pub to_text : Value → Text
  pub to_bool : Value → Bool
  pub to_double : Value → Double
  pub to_long : Value → ℤ
  pub to_int : Value → ℤ
  pub is_valid : Value → Bool
  pub is_null : Value → Bool
  pub is_map : Value → Bool  -- `canConvert<QVariantMap>()`
  pub to_map : Value → Map
  pub is_list : Value → Bool  -- `canConvert<QVariantList>()`
  pub to_list : Value → List Value
  pub zero : Double
  pub not_a_number : Double
  pub is_finite : Double → Bool
  pub differ : Double → Double → Bool  -- `a != b`
  pub fuzzy_equal : Double → Double → Bool  -- `qFuzzyCompare(a + 1.0, b + 1.0)`
  pub same_lists : List Value → List Value → Bool
  pub same_doubles : List Double → List Double → Bool  -- `==` of two `QVariantList`s of numbers

-- The signals.
pub data Change : Type 0 where
  conn_changed mode_changed phase_changed estop_changed control_enabled_changed pose_changed
        battery_changed has_robot_state_changed state_ts_ms_changed task_changed faults_changed
        faults_list_changed nav_status_changed nav_trail_changed track_err_changed
        heartbeat_rtt_ms_changed connected_changed connecting_changed error_string_changed
        host_changed port_changed proto_changed server_changed last_cmd_ack_changed
        log_lines_changed auto_reconnect_changed reconnect_attempts_changed :
      Change

pub record Remote (V : Variants) : Type 0 where
  pub connected : Bool
  pub connecting : Bool
  pub error_string : Text
  pub host : Text
  pub port : ℤ
  pub rtt_ms : ℤ
  pub proto : Text
  pub server : Text
  pub conn : Text
  pub mode : Text
  pub phase : Text
  pub estop : Bool
  pub control_enabled : Bool
  pub pose_x : V.Double
  pub pose_y : V.Double
  pub pose_yaw : V.Double
  pub battery : V.Double
  pub has_robot_state : Bool
  pub state_ts_ms : ℤ
  pub task_id : Text
  pub task_type : Text
  pub task_status : Text
  pub faults_summary : Text
  pub fault_count : ℕ
  pub faults_list : List V.Value
  pub nav_status : Text
  pub nav_path_len : ℤ
  pub nav_idx : ℤ
  pub nav_path : List (V.Double × V.Double)
  pub nav_trail : List (V.Double × V.Double)
  pub nav_path_flat : List V.Double
  pub nav_trail_flat : List V.Double
  pub nav_goal_x : V.Double
  pub nav_goal_y : V.Double
  pub track_err : V.Double
  pub last_cmd_ack_text : Text
  pub last_cmd_ok : Bool
  pub log_lines : List Text
  pub auto_reconnect : Bool
  pub reconnect_attempts : ℕ  -- counts up from 0
  pub signals : List Change  -- those emitted so far

abbrev pub bools_differ : Bool → Bool → Bool
bools_differ true b = not b
bools_differ false b = b

abbrev pub longs_differ : ℤ → ℤ → Bool
longs_differ a b = not (pos_part a == pos_part b && neg_part a == neg_part b)

-- `QStringList::join`.
unfoldable pub join : Text → List Text → Text
join sep [] = []
join sep (s ∷ []) = s
join sep (s ∷ t ∷ ts) = s ++ sep ++ join sep (t ∷ ts)

-- The signals whose change has come to pass.
abbrev pub emitted : List (Bool × Change) → List Change
emitted [] = []
emitted ((b, c) ∷ ns) = if b then c ∷ emitted ns else emitted ns

-- The members' first values.
unfoldable pub initial : (V : Variants) → Remote V
initial V = record {
  connected = false;
  connecting = false;
  error_string = [];
  host = codes "127.0.0.1";
  port = pos 8765;
  rtt_ms = pos 0;
  proto = [];
  server = [];
  conn = codes "OFFLINE";
  mode = codes "TELEOP";
  phase = codes "BOOT";
  estop = false;
  control_enabled = false;
  pose_x = V.zero;
  pose_y = V.zero;
  pose_yaw = V.zero;
  battery = V.zero;
  has_robot_state = false;
  state_ts_ms = pos 0;
  task_id = [];
  task_type = [];
  task_status = codes "NONE";
  faults_summary = [];
  fault_count = 0;
  faults_list = [];
  nav_status = codes "IDLE";
  nav_path_len = pos 0;
  nav_idx = pos 0;
  nav_path = [];
  nav_trail = [];
  nav_path_flat = [];
  nav_trail_flat = [];
  nav_goal_x = V.zero;
  nav_goal_y = V.zero;
  track_err = V.zero;
  last_cmd_ack_text = [];
  last_cmd_ok = false;
  log_lines = [];
  auto_reconnect = true;
  reconnect_attempts = 0;
  signals = [];
}
