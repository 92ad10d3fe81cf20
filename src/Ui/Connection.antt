-- ===== src/Ui/Connection.antt =====
-- What the console decides about its connection (ui/botcockpit/src/connectioncontroller.cpp), with
-- the members of RobotState that the decisions rest on. The whole controller is Ui.Console, which
-- refines this.
pub mod Sound
mod Tests
use bot_cock_pit.Prelude.{
  ℕ, ◌+◌, ◌*◌, Bool, true, false, not, ◌&&◌, ◌||◌, List, [], ◌∷◌, Option, none, some, if◌then◌else◌,
  min,
}
use bot_cock_pit.Int.{ℤ, pos}
use bot_cock_pit.Text.{Text, is_empty}

-- What is emitted to the worker.
pub data Signal : Type 0 where
  start_worker : Text → ℤ → Signal
  stop_worker : Signal
  worker_command : Signal

-- `timer` is the delay of the reconnect timer in milliseconds while it is active.
pub record Connection : Type 0 where
  pub manual_disconnect : Bool
  pub backoff_s : ℕ
  pub last_host : Text
  pub last_port : ℤ
  pub reconnect_pending : Bool
  pub timer : Option ℕ
  pub hello_ok_session : Bool
  pub connected : Bool
  pub connecting : Bool
  pub auto_reconnect : Bool
  pub reconnect_attempts : ℕ
  pub signals : List Signal  -- the newest first

abbrev emit : Signal → Connection → Connection
emit s c = record c { signals = s ∷ c.signals }

abbrev pub is_active : Option ℕ → Bool
is_active none = false
is_active (some ms) = true

unfoldable pub connect_to_server : Text → ℤ → Connection → Connection
connect_to_server host port c =
    let fresh = record c { manual_disconnect = false; backoff_s = 1; timer = none } in
    if c.connected || c.connecting
    then fresh
    else emit (start_worker host port)
        (record fresh { last_host = host; last_port = port; connecting = true })

unfoldable pub disconnect_from_server : Connection → Connection
disconnect_from_server c =
    emit stop_worker (record c { manual_disconnect = true; timer = none; reconnect_attempts = 0 })

-- The five commands, whose common guard this is: which of them it is, and its arguments, are left
-- out.
unfoldable pub command : Connection → Connection
command c = if c.connected then emit worker_command c else c

abbrev pub cannot_schedule : Connection → Bool
cannot_schedule c =
    c.manual_disconnect
    || not c.auto_reconnect
    || is_empty c.last_host
    || c.reconnect_pending && is_active c.timer

unfoldable pub schedule_reconnect : Connection → Connection
schedule_reconnect c = if cannot_schedule c then c else record c {
  reconnect_pending = true;
  reconnect_attempts = c.reconnect_attempts + 1;
  backoff_s = min (c.backoff_s * 2) 10;
  timer = some (c.backoff_s * 1000);
}

-- The timer is a single shot: it is not active any more when it calls.
unfoldable pub on_reconnect_timer : Connection → Connection
on_reconnect_timer c =
    let fired = record c { timer = none; reconnect_pending = false } in
    if c.manual_disconnect || c.connected
    then fired
    else emit (start_worker c.last_host c.last_port)
        (record fired { connecting = true; hello_ok_session = false })

unfoldable pub on_connected : Connection → Connection
on_connected c = record c {
  timer = none;
  reconnect_pending = false;
  hello_ok_session = false;
  connecting = true;
  connected = false;
}

unfoldable pub on_disconnected : Connection → Connection
unfolding schedule_reconnect
on_disconnected c =
    schedule_reconnect
      (record c { hello_ok_session = false; connecting = false; connected = false })

-- HELLO_ACK with its `ok`.
unfoldable pub on_hello_ack : Bool → Connection → Connection
unfolding schedule_reconnect
on_hello_ack false c = schedule_reconnect (
    emit stop_worker (record c {
      hello_ok_session = false;
      connected = false;
      connecting = false;
      manual_disconnect = false;
    }))
on_hello_ack true c = record c {
  hello_ok_session = true;
  reconnect_pending = false;
  timer = none;
  reconnect_attempts = 0;
  backoff_s = 1;
  connecting = false;
  connected = true;
}

unfoldable pub on_error : Connection → Connection
on_error c = record c { hello_ok_session = false; connecting = false; connected = false }

-- What the user, the timer and the worker do.
pub data Event : Type 0 where
  connect : Text → ℤ → Event
  disconnect timer_fired worker_connected worker_disconnected worker_error send_command : Event
  hello_ack : Bool → Event
  set_auto_reconnect : Bool → Event

unfoldable pub step : Event → Connection → Connection
step (connect host port) c = connect_to_server host port c
step disconnect c = disconnect_from_server c
step timer_fired c = on_reconnect_timer c
step worker_connected c = on_connected c
step worker_disconnected c = on_disconnected c
step worker_error c = on_error c
step send_command c = command c
step (hello_ack ok) c = on_hello_ack ok c
step (set_auto_reconnect v) c = record c { auto_reconnect = v }

unfoldable pub run : List Event → Connection → Connection
unfolding step
run [] c = c
run (e ∷ es) c = run es (step e c)

abbrev pub initial : Connection
initial = record {
  manual_disconnect = false;
  backoff_s = 1;
  last_host = [];
  last_port = pos 8765;
  reconnect_pending = false;
  timer = none;
  hello_ok_session = false;
  connected = false;
  connecting = false;
  auto_reconnect = true;
  reconnect_attempts = 0;
  signals = [];
}
