-- ===== src/Ui/Console/Tests.antt =====
-- The console from the connection to a first state of the robot.
use bot_cock_pit.Prelude.{◌≡◌, false, List, [], ◌∷◌, ◌++◌, none}
use bot_cock_pit.Int.{pos}
use bot_cock_pit.Text.{Text, codes}
use bot_cock_pit.Ui.Connection
use bot_cock_pit.Ui.Remote.{initial}
use bot_cock_pit.Ui.Remote.Pairs.{pairs}
use bot_cock_pit.Ui.Console.{Phrases, Console}
use bot_cock_pit.Ui.Console.Events.{Event, connect, worker_connected, hello_ack, state, estop, run}
use bot_cock_pit.Ui.Console.Refines.{decisive, run_refines}
use bot_cock_pit.Ui.Console.Views.{view}

-- Places are filled at the end.
abbrev phrases : Phrases pairs
phrases = record {
  arg = λ s t. s ++ t;
  arg_int = λ s n. s;
  arg_double = λ s d. s;
  arg_three = λ s t u v. s ++ (t ++ (u ++ v));
  trimmed = λ s. s;
  thirty = 30;
}

abbrev fresh : Console pairs
fresh = record {
  manual_disconnect = false;
  backoff_s = 1;
  last_host = [];
  last_port = pos 8765;
  reconnect_pending = false;
  timer = none;
  hello_ok_session = false;
  state = initial pairs;
  nodes = [];
  orders = [];
}

abbrev morning : List (Text × Event pairs)
morning =
    (codes "08:00:00", connect (codes "robot") (pos 8765))
    ∷ (codes "08:00:01", worker_connected)
    ∷ (codes "08:00:02", hello_ack ((codes "ok", codes "true") ∷ []))
    ∷ (codes "08:00:03", state ((codes "conn", codes "ONLINE") ∷ []))
    ∷ (codes "08:00:04", estop (codes "operator"))
    ∷ []

run_refines_example :
    view (run phrases morning fresh) ≡ Connection.run (decisive morning) (view fresh)
run_refines_example = run_refines phrases morning fresh
