-- ===== src/Ui/Console/Events.antt =====
-- The console's events as they come: the slots of ui/botcockpit/src/connectioncontroller.cpp, called
-- by the user, the timer and the worker's signals.
use bot_cock_pit.Prelude.{Bool, List, [], ◌∷◌}
use bot_cock_pit.Int.{ℤ}
use bot_cock_pit.Text.{Text}
use bot_cock_pit.Ui.Nodes.{set_nodes}
use bot_cock_pit.Ui.Remote.{Variants}
use bot_cock_pit.Ui.Remote.Apply.{apply_state}
use bot_cock_pit.Ui.Remote.Slots.{set_auto_reconnect, set_heartbeat_rtt}
use bot_cock_pit.Ui.Console.{
  Phrases, Console, connect_to_server, disconnect_from_server, send_mode, send_goto, send_simple,
  send_estop, send_reset, on_reconnect_timer, on_connected, on_disconnected, on_hello_ack,
  on_cmd_ack, on_error,
}

-- What the user, the timer and the worker do.
pub data Event (V : Variants) : Type 0 where
  connect : Text → ℤ → Event V
  goto : Text → V.Double → V.Double → Event V
  disconnect reset timer_fired worker_connected worker_disconnected : Event V
  mode simple estop worker_error : Text → Event V
  hello_ack state cmd_ack : V.Map → Event V
  nodes : List V.Value → Event V
  rtt : ℤ → Event V
  auto_reconnect : Bool → Event V

module _ {V : Variants} (words : Phrases V) where
  -- An event at its time of day.
  unfoldable pub step : Text × Event V → Console V → Console V
  unfolding connect_to_server disconnect_from_server send_mode send_goto send_simple send_estop
      send_reset on_reconnect_timer on_connected on_disconnected on_hello_ack on_cmd_ack on_error
  step (time, connect host port) c = connect_to_server words time host port c
  step (time, goto task_id x y) c = send_goto words time task_id x y c
  step (time, disconnect) c = disconnect_from_server words time c
  step (time, reset) c = send_reset words time c
  step (time, timer_fired) c = on_reconnect_timer words time c
  step (time, worker_connected) c = on_connected words time c
  step (time, worker_disconnected) c = on_disconnected words time c
  step (time, mode m) c = send_mode words time m c
  step (time, simple type) c = send_simple words time type c
  step (time, estop reason) c = send_estop words time reason c
  step (time, worker_error message) c = on_error words time message c
  step (time, hello_ack info) c = on_hello_ack words time info c
  step (time, state m) c = record c { state = apply_state V m c.state }
  step (time, cmd_ack ack) c = on_cmd_ack words time ack c
  step (time, nodes rows) c = record c { nodes = set_nodes V rows }
  step (time, rtt ms) c = record c { state = set_heartbeat_rtt ms c.state }
  step (time, auto_reconnect v) c = record c { state = set_auto_reconnect v c.state }

  unfoldable pub run : List (Text × Event V) → Console V → Console V
  unfolding step
  run [] c = c
  run (e ∷ es) c = run es (step e c)
