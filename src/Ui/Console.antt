-- ===== src/Ui/Console.antt =====
-- The console's controller with all it shows (ui/botcockpit/src/connectioncontroller.cpp). The
-- objects exist. `QString::arg` and `trimmed` are parameters, and so is the time of day.
pub mod Chains
pub mod Events
pub mod Refines
pub mod Views
mod Tests
use bot_cock_pit.Prelude.{
  ℕ, ◌+◌, ◌*◌, Bool, true, false, not, ◌&&◌, ◌||◌, List, [], ◌∷◌, ◌++◌, Option, none, some,
  if◌then◌else◌, min,
}
use bot_cock_pit.Int.{ℤ, pos}
use bot_cock_pit.Text.{Text, codes, is_empty}
use bot_cock_pit.Ui.Connection.{is_active}
use bot_cock_pit.Ui.Nodes.{NodeRow, set_nodes}
use bot_cock_pit.Ui.Remote.{Variants, Remote}
use bot_cock_pit.Ui.Remote.Nav.{text_in}
use bot_cock_pit.Ui.Remote.Apply.{bool_in, apply_state}
use bot_cock_pit.Ui.Remote.Slots.{
  set_auto_reconnect, set_reconnect_attempts, append_log, set_last_cmd_ack, set_connecting,
  set_connected, set_error_string, set_endpoint, set_heartbeat_rtt, set_hello_info, reset_remote,
}

-- What the code uses of `QString` beyond its characters: `arg` fills the first place.
pub record Phrases (V : Variants) : Type 0 where
  pub arg : Text → Text → Text
  pub arg_int : Text → ℤ → Text
  pub arg_double : Text → V.Double → Text
  pub arg_three : Text → Text → Text → Text → Text
  pub trimmed : Text → Text
  pub thirty : V.Double

-- What is emitted to the worker.
pub data Order (V : Variants) : Type 0 where
  start_worker : Text → ℤ → Order V
  stop_worker : Order V
  cmd_mode : Text → Order V
  cmd_task : Text → Text → V.Double → V.Double → V.Double → Order V
  cmd_estop : Text → Order V
  cmd_reset : Order V

-- `timer` is the delay of the reconnect timer in milliseconds while it is active.
pub record Console (V : Variants) : Type 0 where
  pub manual_disconnect : Bool
  pub backoff_s : ℕ
  pub last_host : Text
  pub last_port : ℤ
  pub reconnect_pending : Bool
  pub timer : Option ℕ
  pub hello_ok_session : Bool
  pub state : Remote V
  pub nodes : List NodeRow
  pub orders : List (Order V)  -- the newest first

module _ {V : Variants} (words : Phrases V) (time : Text) where
  abbrev pub emit : Order V → Console V → Console V
  emit o c = record c { orders = o ∷ c.orders }

  abbrev pub note : Text → Remote V → Remote V
  note line r = append_log time line r

  unfoldable pub connect_to_server : Text → ℤ → Console V → Console V
  connect_to_server host port c =
      let fresh = record c { manual_disconnect = false; backoff_s = 1; timer = none } in
      if c.state.connected || c.state.connecting
      then fresh
      else emit (start_worker host port) (record fresh {
        last_host = host;
        last_port = port;
        state =
            note (words.arg_int (words.arg (codes "connect %1:%2") host) port)
              (set_error_string [] (set_connecting true (set_endpoint host port c.state)));
      })

  unfoldable pub disconnect_from_server : Console V → Console V
  disconnect_from_server c = emit stop_worker (record c {
    manual_disconnect = true;
    timer = none;
    state = note (codes "manual disconnect") (set_reconnect_attempts 0 c.state);
  })

  -- A command with its line for the log, where there is a connection.
  abbrev pub send : Text → Order V → Console V → Console V
  send line o c =
      if not c.state.connected then c else emit o (record c { state = note line c.state })

  unfoldable pub send_mode : Text → Console V → Console V
  send_mode mode c = send (words.arg (codes "CMD_MODE %1") mode) (cmd_mode mode) c

  unfoldable pub send_goto : Text → V.Double → V.Double → Console V → Console V
  send_goto task_id x y c =
      let id = words.trimmed task_id in
      let shown = if is_empty id then codes "auto" else id in
      let line =
        words.arg_double
          (words.arg_double (words.arg (codes "CMD_TASK goto id=%1 (%2,%3)") shown) x) y in
      send line (cmd_task id (codes "goto") x y words.thirty) c

  unfoldable pub send_simple : Text → Console V → Console V
  send_simple type c =
      send (words.arg (codes "CMD_TASK %1") type) (cmd_task [] type V.zero V.zero V.zero) c

  unfoldable pub send_estop : Text → Console V → Console V
  send_estop reason c = send (words.arg (codes "CMD_ESTOP %1") reason) (cmd_estop reason) c

  unfoldable pub send_reset : Console V → Console V
  send_reset c = send (codes "CMD_RESET") cmd_reset c

  abbrev pub cannot_schedule : Console V → Bool
  cannot_schedule c =
      c.manual_disconnect
      || not c.state.auto_reconnect
      || is_empty c.last_host
      || c.reconnect_pending && is_active c.timer

  unfoldable pub schedule_reconnect : Text → Console V → Console V
  schedule_reconnect why c =
      let s = set_reconnect_attempts (c.state.reconnect_attempts + 1) c.state in
      let place = words.arg_int (codes "reconnect in %1s (%2) — %3") (pos c.backoff_s) in
      let line = words.arg (words.arg_int place (pos s.reconnect_attempts)) why in
      if cannot_schedule c then c else record c {
        reconnect_pending = true;
        backoff_s = min (c.backoff_s * 2) 10;
        state = note line s;
        timer = some (c.backoff_s * 1000);
      }

  -- The timer is a single shot: it is not active any more when it calls.
  unfoldable pub on_reconnect_timer : Console V → Console V
  on_reconnect_timer c =
      let fired = record c { timer = none; reconnect_pending = false } in
      if c.manual_disconnect || c.state.connected
      then fired
      else emit (start_worker c.last_host c.last_port) (record fired {
        hello_ok_session = false;
        state = set_error_string [] (set_connecting true c.state);
      })

  unfoldable pub on_connected : Console V → Console V
  on_connected c = record c {
    timer = none;
    reconnect_pending = false;
    hello_ok_session = false;
    state =
        note (codes "TCP connected, waiting HELLO…")
          (set_error_string [] (set_connected false (set_connecting true c.state)));
  }

  abbrev pub why_lost : Console V → Text
  why_lost c =
      if not c.hello_ok_session && not c.manual_disconnect
      then codes "tcp/protocol disconnect"
      else codes "disconnect"

  abbrev pub lost : Console V → Console V
  lost c = record c {
    hello_ok_session = false;
    nodes = set_nodes V [];
    state =
        note (codes "disconnected")
          (reset_remote (set_connected false (set_connecting false c.state)));
  }

  unfoldable pub on_disconnected : Console V → Console V
  unfolding schedule_reconnect
  on_disconnected c = schedule_reconnect (why_lost c) (lost c)

  abbrev pub refused : V.Map → Console V → Console V
  refused info c =
      let reason = text_in V info (codes "reason") in
      emit stop_worker (record c {
        hello_ok_session = false;
        manual_disconnect = false;
        state = set_connecting false (
            set_connected false (
              note (words.arg (codes "HELLO rejected: %1") reason)
                (set_error_string reason c.state)));
      })

  abbrev pub welcomed : V.Map → Console V → Console V
  welcomed info c =
      let named =
        set_hello_info (text_in V info (codes "proto")) (text_in V info (codes "server")) c.state in
      let s =
        set_error_string []
          (set_connected true (set_connecting false (set_reconnect_attempts 0 named))) in
      record c {
        hello_ok_session = true;
        reconnect_pending = false;
        timer = none;
        backoff_s = 1;
        state =
            note (words.arg (words.arg (codes "HELLO_ACK proto=%1 server=%2") s.proto) s.server) s;
      }

  unfoldable pub on_hello_ack : V.Map → Console V → Console V
  unfolding schedule_reconnect
  on_hello_ack info c =
      if not (bool_in V info (codes "ok"))
      then schedule_reconnect (codes "hello rejected") (refused info c)
      else welcomed info c

  unfoldable pub on_cmd_ack : V.Map → Console V → Console V
  on_cmd_ack ack c =
      let reason = text_in V ack (codes "reason") in
      let line =
        words.arg_three (codes "ACK %1 %2%3") (text_in V ack (codes "cmd"))
          (if bool_in V ack (codes "ok") then codes "OK" else codes "NACK")
          (if is_empty reason then [] else codes " " ++ reason) in
      record c { state = note line (set_last_cmd_ack ack c.state) }

  unfoldable pub on_error : Text → Console V → Console V
  on_error message c = record c {
    hello_ok_session = false;
    state = note (words.arg (codes "error: %1") message) (
        reset_remote
          (set_error_string message (set_connected false (set_connecting false c.state))));
  }
