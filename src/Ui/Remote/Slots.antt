-- ===== src/Ui/Remote/Slots.antt =====
-- What else is stored for display (ui/botcockpit/src/robotstate.cpp): the setters, the log, the
-- last acknowledgement and the reset. The time of day is a parameter.
use bot_cock_pit.Prelude.{
  ℕ, zero, suc, Bool, false, not, ◌&&◌, List, [], ◌∷◌, ◌++◌, if◌then◌else◌, length, ltb, ◌==◌,
}
use bot_cock_pit.Int.{ℤ, pos}
use bot_cock_pit.Text.{Text, codes, text_eq, is_empty}
use bot_cock_pit.Ui.Remote.{
  Variants, Remote, Change, bools_differ, longs_differ, conn_changed, mode_changed, phase_changed,
  estop_changed, control_enabled_changed, pose_changed, battery_changed, has_robot_state_changed,
  state_ts_ms_changed, task_changed, faults_changed, nav_status_changed, nav_trail_changed,
  heartbeat_rtt_ms_changed, connected_changed, connecting_changed, error_string_changed,
  host_changed, port_changed, proto_changed, server_changed, last_cmd_ack_changed,
  log_lines_changed, auto_reconnect_changed, reconnect_attempts_changed,
}
use bot_cock_pit.Ui.Remote.Nav.{text_in}
use bot_cock_pit.Ui.Remote.Apply.{apply_state}

-- `removeLast`.
unfoldable pub remove_last {ℓ} : {A : Type ℓ} → List A → List A
remove_last [] = []
remove_last (x ∷ []) = []
remove_last (x ∷ y ∷ xs) = x ∷ remove_last (y ∷ xs)

-- `while (log_lines_.size() > 80)`, on as many rounds as there are lines.
unfoldable pub trim : ℕ → List Text → List Text
unfolding remove_last
trim zero lines = lines
trim (suc rounds) lines =
    let rest = trim rounds (remove_last lines) in if ltb 80 (length lines) then rest else lines

-- `text` with its separator and what follows, where there is something.
abbrev pub with_part : Bool → Text → Text → Text → Text
with_part shown sep part text = if shown then text ++ (sep ++ part) else text

abbrev pub ack_text : (V : Variants) → Bool → V.Map → Text
unfolding text_eq
ack_text V good ack =
    let cmd = text_in V ack (codes "cmd") in
    let status = text_in V ack (codes "status") in
    let reason = text_in V ack (codes "reason") in
    let seq = V.value ack (codes "seq") in
    let start = if is_empty cmd then cmd else cmd ++ codes " " in
    let result = start ++ (if good then codes "OK" else codes "REJECTED") in
    with_part (V.is_valid seq && not (V.is_null seq)) (codes " | seq=") (V.to_text seq) (
      with_part (not (is_empty reason) && not (text_eq reason (codes "null"))) (codes " | ") reason
        (with_part (not (is_empty status)) (codes " | ") status result))

-- The signals of a reset, in order.
abbrev pub reset_signals : List Change
reset_signals =
    nav_status_changed ∷ nav_trail_changed ∷ conn_changed ∷ mode_changed ∷ phase_changed
    ∷ estop_changed ∷ control_enabled_changed ∷ pose_changed ∷ battery_changed
    ∷ has_robot_state_changed ∷ state_ts_ms_changed ∷ task_changed ∷ faults_changed
    ∷ heartbeat_rtt_ms_changed ∷ []

module _ {V : Variants} where
  abbrev pub tell : Change → Remote V → Remote V
  tell c r = record r { signals = r.signals ++ c ∷ [] }

  unfoldable pub set_auto_reconnect : Bool → Remote V → Remote V
  set_auto_reconnect v r =
      if bools_differ r.auto_reconnect v
      then tell auto_reconnect_changed (record r { auto_reconnect = v })
      else r

  unfoldable pub set_reconnect_attempts : ℕ → Remote V → Remote V
  set_reconnect_attempts n r =
      if r.reconnect_attempts == n
      then r
      else tell reconnect_attempts_changed (record r { reconnect_attempts = n })

  unfoldable pub append_log : Text → Text → Remote V → Remote V
  unfolding trim
  append_log time line r =
      let stamped = time ++ (codes "  " ++ line) in
      let lines = stamped ∷ r.log_lines in
      tell log_lines_changed (record r { log_lines = trim (length lines) lines })

  unfoldable pub set_last_cmd_ack : V.Map → Remote V → Remote V
  unfolding text_eq
  set_last_cmd_ack ack r =
      let good = V.to_bool (V.value ack (codes "ok")) in
      tell last_cmd_ack_changed
        (record r { last_cmd_ok = good; last_cmd_ack_text = ack_text V good ack })

  unfoldable pub set_connecting : Bool → Remote V → Remote V
  set_connecting v r =
      if bools_differ r.connecting v
      then tell connecting_changed (record r { connecting = v })
      else r

  unfoldable pub set_connected : Bool → Remote V → Remote V
  set_connected v r =
      if bools_differ r.connected v then tell connected_changed (record r { connected = v }) else r

  unfoldable pub set_error_string : Text → Remote V → Remote V
  set_error_string e r =
      if text_eq r.error_string e
      then r
      else tell error_string_changed (record r { error_string = e })

  abbrev pub set_host : Text → Remote V → Remote V
  set_host host r = if text_eq r.host host then r else tell host_changed (record r { host = host })

  abbrev pub set_port : ℤ → Remote V → Remote V
  set_port port r =
      if longs_differ r.port port then tell port_changed (record r { port = port }) else r

  unfoldable pub set_endpoint : Text → ℤ → Remote V → Remote V
  set_endpoint host port r = set_port port (set_host host r)

  unfoldable pub set_heartbeat_rtt : ℤ → Remote V → Remote V
  set_heartbeat_rtt ms r =
      if longs_differ r.rtt_ms ms
      then tell heartbeat_rtt_ms_changed (record r { rtt_ms = ms })
      else r

  abbrev pub set_proto : Text → Remote V → Remote V
  set_proto proto r =
      if text_eq r.proto proto then r else tell proto_changed (record r { proto = proto })

  abbrev pub set_server : Text → Remote V → Remote V
  set_server server r =
      if text_eq r.server server then r else tell server_changed (record r { server = server })

  unfoldable pub set_hello_info : Text → Text → Remote V → Remote V
  set_hello_info proto server r = set_server server (set_proto proto r)

  unfoldable pub reset_remote : Remote V → Remote V
  reset_remote r = record r {
    conn = codes "OFFLINE";
    mode = codes "TELEOP";
    phase = codes "BOOT";
    estop = false;
    control_enabled = false;
    pose_x = V.zero;
    pose_y = V.zero;
    pose_yaw = V.zero;
    battery = V.zero;
    has_robot_state = false;
    state_ts_ms = pos 0;
    task_id = [];
    task_type = [];
    task_status = codes "NONE";
    faults_summary = [];
    fault_count = 0;
    nav_path = [];
    nav_trail = [];
    nav_path_flat = [];
    nav_trail_flat = [];
    nav_idx = pos 0;
    nav_path_len = pos 0;
    rtt_ms = pos 0;
    signals = r.signals ++ reset_signals;
  }

-- A call of one of the methods that change the state.
pub data Call (V : Variants) : Type 0 where
  auto_reconnect connecting connected : Bool → Call V
  attempts : ℕ → Call V
  rtt : ℤ → Call V
  log hello_info : Text → Text → Call V
  ack state : V.Map → Call V
  failure : Text → Call V
  endpoint : Text → ℤ → Call V
  reset : Call V

unfoldable pub call : {V : Variants} → Call V → Remote V → Remote V
unfolding apply_state set_auto_reconnect set_reconnect_attempts append_log set_last_cmd_ack
    set_connecting set_connected set_error_string set_endpoint set_heartbeat_rtt set_hello_info
    reset_remote
call (auto_reconnect v) r = set_auto_reconnect v r
call (connecting v) r = set_connecting v r
call (connected v) r = set_connected v r
call (attempts n) r = set_reconnect_attempts n r
call (rtt ms) r = set_heartbeat_rtt ms r
call (log time line) r = append_log time line r
call (hello_info proto server) r = set_hello_info proto server r
call (ack m) r = set_last_cmd_ack m r
call {V} (state m) r = apply_state V m r
call (failure e) r = set_error_string e r
call (endpoint host port) r = set_endpoint host port r
call reset r = reset_remote r

unfoldable pub run : {V : Variants} → List (Call V) → Remote V → Remote V
unfolding call
run [] r = r
run (c ∷ cs) r = run cs (call c r)
