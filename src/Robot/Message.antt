-- ===== src/Robot/Message.antt =====
-- The texts that the robot publishes (sim/src/fake_robot.cpp, build_state_json and
-- publish_cmd_result; sim/include/botcockpit_sim/nav.hpp, path_to_json and path_to_flat_json).
use bot_cock_pit.Prelude.{ℕ, List, [], ◌∷◌, ◌++◌, if◌then◌else◌, flat, length, map}
use bot_cock_pit.Text.{Text, codes, is_empty}
use bot_cock_pit.Text.Decimal.{to_string}
use bot_cock_pit.Floats.{Floats}
use bot_cock_pit.Nav.Map.{Point}
use bot_cock_pit.Robot.Extract.{esc}
use bot_cock_pit.Robot.{Robot, degraded, fault, Health, FaultItem, CmdResult}
use bot_cock_pit.Robot.Words.{
  phase_text, mode_text, task_status_text, task_type_text, nav_status_text, health_text, level_text,
  code_text, verdict_text, reason_text, bool_text,
}

abbrev pub in_quotes : Text → Text
in_quotes s = b'"' ∷ (s ++ b'"' ∷ [])

-- `null` for an empty string, else the string as a literal.
abbrev or_null : Text → Text
or_null s = if is_empty s then codes "null" else in_quotes (esc s)

-- With commas between the items.
abbrev comma_list : List Text → Text
comma_list [] = []
comma_list (t ∷ []) = t
comma_list (t ∷ u ∷ ts) = t ++ b',' ∷ comma_list (u ∷ ts)

unfoldable pub cmd_result_json : CmdResult → Text
unfolding esc
cmd_result_json r = flat (
    codes "{\"seq\":"
    ∷ to_string r.seq
    ∷ codes ",\"ok\":"
    ∷ bool_text r.ok
    ∷ codes ",\"cmd\":\""
    ∷ esc r.cmd
    ∷ codes "\",\"status\":\""
    ∷ esc (verdict_text r.status)
    ∷ codes "\",\"reason\":"
    ∷ or_null (reason_text r.reason)
    ∷ codes ",\"task_id\":"
    ∷ or_null r.task_id
    ∷ codes "}"
    ∷ [])

module _ (F : Floats) where
  path_to_json : List (Point F) → Text
  path_to_json path =
      b'['
      ∷ (comma_list
            (map (λ p. b'[' ∷ (F.to_string p.0 ++ b',' ∷ (F.to_string p.1 ++ b']' ∷ []))) path)
          ++ b']' ∷ [])

  path_to_flat_json : List (Point F) → Text
  path_to_flat_json path =
      b'[' ∷ (comma_list (map (λ p. F.to_string p.0 ++ b',' ∷ F.to_string p.1) path) ++ b']' ∷ [])

abbrev node_json : ℕ → Text → Health → Text
node_json now name status = flat (
    codes "{\"name\":\""
    ∷ esc name
    ∷ codes "\",\"status\":\""
    ∷ esc (health_text status)
    ∷ codes "\",\"last_hb_ms\":"
    ∷ to_string now
    ∷ codes "}"
    ∷ [])

abbrev fault_json : ℕ → FaultItem → Text
fault_json now f = flat (
    codes "{\"ts_ms\":"
    ∷ to_string now
    ∷ codes ",\"code\":\""
    ∷ esc (code_text f.code)
    ∷ codes "\",\"level\":\""
    ∷ esc (level_text f.level)
    ∷ codes "\",\"node\":\"fake_robot\",\"detail\":\""
    ∷ esc f.detail
    ∷ codes "\",\"active\":"
    ∷ bool_text f.active
    ∷ codes "}"
    ∷ [])

module _ {F : Floats} where
  -- What the robot tells the console of the connection.
  unfoldable pub conn_text : Robot F → Text
  conn_text r = if r.estop then codes "ESTOP" else elim r.phase [
    | fault ↦ codes "OFFLINE"
    | degraded ↦ if r.console_online then codes "DEGRADED" else codes "OFFLINE"
    | _ ↦ if r.console_online then codes "ONLINE" else codes "OFFLINE"
  ]

  task_json : Robot F → Text
  task_json r = flat (
      codes "{\"id\":"
      ∷ or_null r.task_id
      ∷ codes ",\"type\":"
      ∷ or_null (task_type_text r.task_type)
      ∷ codes ",\"status\":\""
      ∷ esc (task_status_text r.task_status)
      ∷ codes "\"}"
      ∷ [])

  nav_json : Robot F → Text
  unfolding path_to_json path_to_flat_json
  nav_json r = flat (
      codes "{\"status\":\""
      ∷ esc (nav_status_text r.nav_status)
      ∷ codes "\",\"path_len\":"
      ∷ to_string (length r.nav_path)
      ∷ codes ",\"idx\":"
      ∷ to_string r.nav_idx
      ∷ codes ",\"path\":"
      ∷ path_to_json F r.nav_path
      ∷ codes ",\"path_flat\":"
      ∷ path_to_flat_json F r.nav_path
      ∷ codes ",\"trail\":"
      ∷ path_to_json F r.trail
      ∷ codes ",\"trail_flat\":"
      ∷ path_to_flat_json F r.trail
      ∷ codes ",\"goal\":{\"x\":"
      ∷ F.print r.goal_x
      ∷ codes ",\"y\":"
      ∷ F.print r.goal_y
      ∷ codes "},\"track_err\":"
      ∷ F.print r.track_err
      ∷ codes ",\"track_err_max\":"
      ∷ F.print r.track_err_max
      ∷ codes "}"
      ∷ [])

  unfoldable pub build_state_json : Robot F → Text
  unfolding conn_text task_json nav_json
  build_state_json r = flat (
      codes "{\"ts_ms\":"
      ∷ to_string r.now_ms
      ∷ codes ",\"conn\":\""
      ∷ conn_text r
      ∷ codes "\",\"mode\":\""
      ∷ esc (mode_text r.mode)
      ∷ codes "\",\"phase\":\""
      ∷ esc (phase_text r.phase)
      ∷ codes "\",\"heartbeat_rtt_ms\":0,\"nodes\":["
      ∷ comma_list (
          node_json r.now_ms (codes "fake_robot") r.robot_node
          ∷ node_json r.now_ms (codes "bridge") r.bridge_node
          ∷ [])
      ∷ codes "],\"pose\":{\"x\":"
      ∷ F.print r.pose_x
      ∷ codes ",\"y\":"
      ∷ F.print r.pose_y
      ∷ codes ",\"yaw\":"
      ∷ F.print r.pose_yaw
      ∷ codes "},\"battery\":"
      ∷ F.print r.battery
      ∷ codes ",\"task\":"
      ∷ task_json r
      ∷ codes ",\"faults\":["
      ∷ comma_list (map (fault_json r.now_ms) r.faults)
      ∷ codes "],\"estop\":"
      ∷ bool_text r.estop
      ∷ codes ",\"control_enabled\":"
      ∷ bool_text r.control_enabled
      ∷ codes ",\"nav\":"
      ∷ nav_json r
      ∷ codes "}"
      ∷ [])
