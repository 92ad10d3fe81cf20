-- ===== src/Ui/Console/Refines.antt =====
-- The controller's decisions are those of Ui.Connection, whatever it shows
-- (ui/botcockpit/src/connectioncontroller.cpp).
use bot_cock_pit.Prelude.{◌≡◌, refl, sym, ap, ◌∙◌, List, [], ◌∷◌, ◌++◌}
use bot_cock_pit.Text.{Text, codes}
use bot_cock_pit.Ui.Connection
use bot_cock_pit.Ui.Connection.{Connection, Signal}
use bot_cock_pit.Ui.Remote.{Variants}
use bot_cock_pit.Ui.Remote.Apply.{bool_in}
use bot_cock_pit.Ui.Remote.Control.{
  control-apply_state, control-set_heartbeat_rtt, control-set_auto_reconnect,
}
use bot_cock_pit.Ui.Console.Chains.{acked}
use bot_cock_pit.Ui.Console.{Phrases, cmd_mode, cmd_estop, cmd_reset, Console}
use bot_cock_pit.Ui.Console.Events.{
  Event, connect, goto, disconnect, reset, timer_fired, worker_connected, worker_disconnected, mode,
  simple, estop, worker_error, hello_ack, state, cmd_ack, nodes, rtt, auto_reconnect, step, run,
}
use bot_cock_pit.Ui.Console.Views.{
  view_as, view, view-disconnect_from_server, view-on_error, view-on_connected,
  view-connect_to_server, view-send, view-on_reconnect_timer, view-on_disconnected,
  view-on_hello_ack,
}

-- An event that the decisions rest on.
abbrev pub decides : {V : Variants} → Event V → List Connection.Event
decides (connect host port) = Connection.connect host port ∷ []
decides (goto task_id x y) = Connection.send_command ∷ []
decides disconnect = Connection.disconnect ∷ []
decides reset = Connection.send_command ∷ []
decides timer_fired = Connection.timer_fired ∷ []
decides worker_connected = Connection.worker_connected ∷ []
decides worker_disconnected = Connection.worker_disconnected ∷ []
decides (mode m) = Connection.send_command ∷ []
decides (simple type) = Connection.send_command ∷ []
decides (estop reason) = Connection.send_command ∷ []
decides (worker_error message) = Connection.worker_error ∷ []
decides {V} (hello_ack info) = Connection.hello_ack (bool_in V info (codes "ok")) ∷ []
decides (state m) = []
decides (cmd_ack ack) = []
decides (nodes rows) = []
decides (rtt ms) = []
decides (auto_reconnect v) = Connection.set_auto_reconnect v ∷ []

run-append :
    (es fs : List Connection.Event) (k : Connection)
    → Connection.run (es ++ fs) k ≡ Connection.run fs (Connection.run es k)
unfolding Connection.run
run-append [] fs k = refl
run-append (e ∷ es) fs k = run-append es fs (Connection.step e k)

-- What the decisions do at an event.
abbrev pub decided : {V : Variants} → Event V → Connection → Connection
decided e k = Connection.run (decides e) k

module _ {V : Variants} (words : Phrases V) (time : Text) where
  view-step : (e : Event V) (c : Console V) → view (step words (time, e) c) ≡ decided e (view c)
  unfolding step Connection.run
  view-step (connect host port) c = view-connect_to_server words time host port c
  view-step (goto task_id x y) c = view-send words time _ _ c refl
  view-step disconnect c = view-disconnect_from_server words time c
  view-step reset c = view-send words time _ cmd_reset c refl
  view-step timer_fired c = view-on_reconnect_timer words time c
  view-step worker_connected c = view-on_connected words time c
  view-step worker_disconnected c = view-on_disconnected words time c
  view-step (mode m) c = view-send words time _ (cmd_mode m) c refl
  view-step (simple type) c = view-send words time _ _ c refl
  view-step (estop reason) c = view-send words time _ (cmd_estop reason) c refl
  view-step (worker_error m) c = view-on_error words time m c
  view-step (hello_ack info) c = view-on_hello_ack words time info c
  view-step (state m) c = ap (view_as c) (control-apply_state c.state m)
  view-step (cmd_ack ack) c = ap (view_as c) (acked c.state time ack _)
  view-step (nodes rows) c = refl
  view-step (rtt ms) c = ap (view_as c) (control-set_heartbeat_rtt c.state ms)
  view-step (auto_reconnect v) c = ap (view_as c) (control-set_auto_reconnect c.state v)

-- The events that the decisions rest on, without their times.
abbrev pub decisive : {V : Variants} → List (Text × Event V) → List Connection.Event
decisive [] = []
decisive ((time, e) ∷ es) = decides e ++ decisive es

module _ {V : Variants} (words : Phrases V) where
  -- After every list of events, whatever is received, logged and displayed meanwhile, the whole
  -- console has the connection, the timer, the counts and the kinds of orders to the worker that
  -- the decisions alone lead to, on the events that they rest on.
  pub run_refines :
      (es : List (Text × Event V)) (c : Console V)
      → view (run words es c) ≡ Connection.run (decisive es) (view c)
  unfolding run Connection.run
  run_refines [] c = refl
  run_refines ((time, e) ∷ es) c =
      run_refines es (step words (time, e) c)
      ∙ ap (Connection.run (decisive es)) (view-step words time e c)
      ∙ sym (run-append (decides e) (decisive es) (view c))
