-- ===== src/System/Tests.antt =====
-- A console, a bridge and a robot, and the bytes of a stop.
use mathlib.Core.List.{cons≢nil}
use bot_cock_pit.Prelude.{
  ℕ, ◌++◌, false, ◌≡◌, ◌≢◌, refl, sym, ap, ◌∙◌, true, [], ◌∷◌, some, none, arith,
}
use bot_cock_pit.Text.{Text, codes, text_eq}
use bot_cock_pit.Ui.Worker.{Worker, connected, send_cmd_estop}
use bot_cock_pit.Ui.Worker.Texts.{texts}
use bot_cock_pit.Ui.Worker.Sound.{IsNumbered}
use bot_cock_pit.System.Console.{written_since, send_cmd_estop-stops}
use bot_cock_pit.Floats.Whole.{whole}
use bot_cock_pit.Nav.Map
use bot_cock_pit.Codec.{Frame, receive, encode_frame}
use bot_cock_pit.Codec.RoundTrip.{IsValid, encode}
use bot_cock_pit.Codec.Stream.{receive-encode}
use bot_cock_pit.Robot.{idle, teleop, nothing, no_type, ok, nav_idle, CmdResult}
use bot_cock_pit.Robot.Command.Task.{Planner}
use bot_cock_pit.Bridge.Server.{is_estop}
use bot_cock_pit.Bridge.Clients.{CmdJob}
use bot_cock_pit.Bridge.Node.{envelope, find, robot_state_fresh}
use bot_cock_pit.Text.Decimal.{to_string, read_from, read_from-to_string}
use bot_cock_pit.Robot.Message.{cmd_result_json}
use bot_cock_pit.Robot.Command.{on_cmd}
use bot_cock_pit.Bridge.Server.Batch.{filter}
use bot_cock_pit.System.{System, recv_through}
use bot_cock_pit.System.Work.{work_through}
use bot_cock_pit.System.Answers.{ReadsSeq, results}
use bot_cock_pit.System.Link.{IsLinked, delta_timer_cb, delta_timer_cb-IsLinked}
use bot_cock_pit.System.Acked.{IsServing, work_through-acks}
use bot_cock_pit.System.Stop.{recv_through-stops}

-- A way that goes straight to the goal.
abbrev straight : Planner whole
straight nav_map from goal = from ∷ goal ∷ []

abbrev joined : System whole
joined = record {
  server = record {
    running = true;
    store = λ i. record {
      fd = some 5;
      decoder = [];
      last_rx_ms = 7000;
      last_hb_rx_ms = 7000;
      hello_ok = true;
      wire = [];
    };
    members = 0 ∷ [];
    cmd_queue = [];
    cmd_handler = none;
    has_urgent_handler = true;
    urgent_calls = [];
  };
  node = record {
    robot_state_json = codes "{}";
    last_robot_state_ms = 7000;
    pending = [];
    estop_raised = false;
    async_estop_seq_valid = false;
    async_estop_seq = 0;
    published = [];
    acks = [];
  };
  robot = record {
    active = true;
    phase = idle;
    mode = teleop;
    estop = false;
    control_enabled = true;
    console_online = true;
    last_console_ms = 0;
    pose_x = 1;
    pose_y = 0;
    pose_yaw = 0;
    battery = 100;
    task_id = [];
    task_type = no_type;
    task_status = nothing;
    goal_x = 0;
    goal_y = 0;
    robot_node = ok;
    bridge_node = ok;
    faults = [];
    nav_map = Map.make_corridor_demo whole;
    nav_path = [];
    trail = [];
    nav_idx = 0;
    nav_status = nav_idle;
    nav_ready = false;
    track_err = 0;
    track_err_max = 0;
    stuck_s = 0;
    stuck_count = 0;
    task_seq = 0;
    idle_tp = 0;
    last_tick_tp = 0;
    topics = true;
    now_ms = 0;
    outbox = [];
  };
}

abbrev stop : Frame
stop = record { type = 0x22; flags = 3; seq = 2; payload = [] }

stop-IsValid : IsValid stop
stop-IsValid = record {
  type_byte = omega arith;
  flags_byte = omega arith;
  seq_word = omega arith;
  fits = omega arith;
}

has_stop : filter is_estop (receive [] (encode stop)).0 ≢ []
unfolding filter
has_stop e = cons≢nil (sym (ap (filter is_estop) (receive-encode stop stop-IsValid)) ∙ e)

recv_through-stops_example : (recv_through straight 8000 0 (encode stop) joined).robot.estop ≡ true
recv_through-stops_example =
    recv_through-stops straight 8000 0 (encode stop) joined
      (record { connected = refl; handler = refl }) has_stop

abbrev console : Worker texts
console = record {
  socket = connected;
  hb_running = true;
  timeout_running = true;
  decoder = [];
  next_seq = 9;
  hb_send_ts = [];
  pending_cmd_name = [];
  last_rx_ms = 7000;
  hello_sent = true;
  hello_ok = true;
  wire = 1 ∷ 2 ∷ [];
  signals = [];
}

console-IsNumbered : IsNumbered console
console-IsNumbered = record {
  seq_low = omega arith;
  seq_high = omega arith;
  hb_stopped = λ e. absurd (ground (arith, e));
  timeout_stopped = λ e. absurd (ground (arith, e));
}

send_cmd_estop-stops_example :
    (recv_through straight 8000 0
      (written_since console (send_cmd_estop (codes "operator") console))
      joined).robot.estop
    ≡ true
send_cmd_estop-stops_example =
    send_cmd_estop-stops straight 8000 0 (codes "operator") console joined console-IsNumbered refl
      (omega arith) (record { connected = refl; handler = refl }) refl refl

whole-ReadsSeq : ReadsSeq whole
unfolding read_from
whole-ReadsSeq = record {
  reads = λ n rest h.
      let value : (read_from 0 (to_string n ++ b',' ∷ rest)).0 ≡ n =
        ap (λ (p : ℕ × Text). p.0) (read_from-to_string n (b',' ∷ rest)) in
      rw value (ap some (omega (arith, h)));
}

abbrev reset_job : CmdJob
reset_job = record {
  client = 0;
  seq = 7;
  cmd_name = codes "CMD_RESET";
  payload = [];
  urgent = false;
}

-- A reset waits in the queue.
abbrev busy : System whole
busy = record joined { server = record joined.server { cmd_queue = reset_job ∷ [] } }

busy-IsServing : IsServing 8000 reset_job [] busy
unfolding robot_state_fresh text_eq
busy-IsServing = record {
  queued = refl;
  connected = refl;
  greeted = refl;
  fresh = refl;
  calm = refl;
  no_stop = refl;
  passed = refl;
  heard = refl;
  topics = refl;
  number = omega arith;
  bare = omega arith;
  no_estop = refl;
  allowed = refl;
}

work_through-acks_example :
    (c : CmdResult) × (results
        (on_cmd straight (envelope (codes "CMD_RESET") 7 []) busy.robot).outbox
      ≡ c ∷ [])
    × (c.seq ≡ 7)
    × (((work_through straight 8000 3 busy).server.store 0).wire
        ≡ encode_frame 0x2f 0 7 (cmd_result_json c))
    × (find 7 (work_through straight 8000 3 busy).node.pending ≡ none)
work_through-acks_example =
    work_through-acks straight 8000 3 reset_job [] busy whole-ReadsSeq busy-IsServing

delta_timer_cb-IsLinked_example :
    IsLinked (delta_timer_cb 9000 joined).server (delta_timer_cb 9000 joined).robot
delta_timer_cb-IsLinked_example = delta_timer_cb-IsLinked 9000 joined refl
