-- ===== src/Bridge/Tests.antt =====
-- The bridge's theorems at a server with one client and a node that waits for one command.
use bot_cock_pit.Prelude.{
  ℕ, ◌≡◌, refl, ◌-◌, ◌<◌, ◌↔◌, true, false, List, [], ◌∷◌, ◌++◌, some, none, arith, All, not, inl,
}
use bot_cock_pit.Text.{Text, codes, find_after, strip_prefix, contains}
use bot_cock_pit.Text.Decimal.{read_from}
use bot_cock_pit.Codec.{Frame, receive}
use bot_cock_pit.Json.{get_int, get_string, find_key_value, skip_ws}
use bot_cock_pit.Json.Escape.{IsPlain}
use bot_cock_pit.Robot.{CmdResult, accepts, no_reason}
use bot_cock_pit.Robot.Extract.{extract_string}
use bot_cock_pit.Robot.Message.{cmd_result_json}
use bot_cock_pit.Bridge.Server.{estop_first, is_estop, on_recv, is_expired, heartbeat_watchdog}
use bot_cock_pit.Bridge.Runtime.{inject_runtime_fields}
use bot_cock_pit.Bridge.Server.Inject.{get_string-inject_runtime_fields}
use bot_cock_pit.Bridge.Clients.{Client, Server}
use bot_cock_pit.Bridge.Server.Batch.{filter, estop_first-filter}
use bot_cock_pit.Bridge.Server.Handle.{Handles, on_recv-Handles}
use bot_cock_pit.Bridge.Server.Threads.{Event, received, worker, stopped, run, is_member}
use bot_cock_pit.Bridge.Server.Threads.Fifo.{arrived, stops, taken, run-fifo}
use bot_cock_pit.Bridge.Server.Watchdog.{heartbeat_watchdog-expires, is_expired-later}
use bot_cock_pit.Bridge.Node.{Bridge, find, wait_cmd_result, on_cmd_result, urgent_estop, envelope}
use bot_cock_pit.Bridge.Node.Pending.{
  IsWaiting, idle_rounds, wait_cmd_result_replied, wait_cmd_result-find, urgent_estop-on_cmd_result,
}
use bot_cock_pit.Bridge.Node.Envelope.{IsBare, extract_string-envelope, get_int-cmd_result_json}

abbrev console : Client
console = record {
  fd = some 5;
  decoder = [];
  last_rx_ms = 7000;
  last_hb_rx_ms = 7000;
  hello_ok = true;
  wire = [];
}

abbrev server : Server
server = record {
  running = true;
  store = λ i. console;
  members = 0 ∷ [];
  cmd_queue = [];
  cmd_handler = none;
  has_urgent_handler = true;
  urgent_calls = [];
}

-- A change of mode, and a stop behind it.
abbrev two_commands : List ℕ
two_commands = 4 ∷ 0 ∷ 0 ∷ 0 ∷ 0x20 ∷ 1 ∷ 1 ∷ 0 ∷ 4 ∷ 0 ∷ 0 ∷ 0 ∷ 0x22 ∷ 3 ∷ 2 ∷ 0 ∷ []

on_recv-Handles_example :
    Handles 0 (receive [] two_commands).0 server (on_recv 8000 (codes "{}") 0 two_commands server)
on_recv-Handles_example =
    on_recv-Handles 8000 (codes "{}") 0 two_commands server
      (record { connected = refl; handler = refl })

abbrev passages : List Event
passages = received 8000 (codes "{}") 0 two_commands ∷ worker ∷ stopped ∷ []

run-fifo_example :
    (taken passages server ++ (run passages server).cmd_queue ≡ [] ++ arrived passages server)
    × ((run passages server).urgent_calls ≡ [] ++ stops passages server)
run-fifo_example = run-fifo passages server refl

abbrev mode_frame : Frame
mode_frame = record { type = 0x20; flags = 1; seq = 1; payload = [] }

abbrev stop_frame : Frame
stop_frame = record { type = 0x22; flags = 3; seq = 2; payload = [] }

estop_first-filter_example :
    estop_first (mode_frame ∷ stop_frame ∷ mode_frame ∷ [])
    ≡ filter is_estop (mode_frame ∷ stop_frame ∷ mode_frame ∷ [])
      ++ filter (λ f. not (is_estop f)) (mode_frame ∷ stop_frame ∷ mode_frame ∷ [])
estop_first-filter_example = estop_first-filter (mode_frame ∷ stop_frame ∷ mode_frame ∷ [])

offline-IsPlain : All IsPlain (codes "OFFLINE")
offline-IsPlain = (
  inl (omega arith),
  (
    inl (omega arith),
    (
      inl (omega arith),
      (inl (omega arith), (inl (omega arith), (inl (omega arith), (inl (omega arith), tt)))),
    ),
  ),
)

has_no_conn : contains (codes "\"conn\"") (codes "{\"battery\":90}") ≡ false
unfolding find_after strip_prefix
has_no_conn = refl

get_string-inject_runtime_fields_example :
    get_string (inject_runtime_fields (codes "{\"battery\":90}") (codes "OFFLINE")) (codes "conn")
    ≡ some (codes "OFFLINE")
get_string-inject_runtime_fields_example =
    get_string-inject_runtime_fields (codes "{\"battery\":90}") (codes "OFFLINE") has_no_conn
      offline-IsPlain

heartbeat_watchdog-expires_example :
    (is_member 0 (heartbeat_watchdog 10001 9000 server).2 ≡ true) ↔ (3000 < 10001 - 7000)
heartbeat_watchdog-expires_example =
    heartbeat_watchdog-expires 10001 9000 0 server refl refl (omega arith) (omega arith)
      (omega arith)

is_expired-later_example : is_expired 6999 console ≡ true
is_expired-later_example =
    is_expired-later 6999 console refl (omega arith) (omega arith) (omega arith)

abbrev node : Bridge
node = record {
  robot_state_json = codes "{}";
  last_robot_state_ms = 7000;
  pending = (3, record { done = false; ack_json = [] }) ∷ [];
  estop_raised = false;
  async_estop_seq_valid = false;
  async_estop_seq = 0;
  published = [];
  acks = [];
}

abbrev reply : Text
reply = codes "{\"seq\":3,\"ok\":true}"

wait_cmd_result-find_example :
    find 3
      (wait_cmd_result ((λ b. b) ∷ on_cmd_result reply ∷ []) 3 (codes "CMD_MODE") node).1.pending
    ≡ none
wait_cmd_result-find_example =
    wait_cmd_result-find ((λ b. b) ∷ on_cmd_result reply ∷ []) 3 (codes "CMD_MODE") node

reply_seq : get_int reply (codes "seq") ≡ some 3
unfolding get_int find_key_value find_after skip_ws read_from
reply_seq = refl

urgent_estop-on_cmd_result_example :
    let c = on_cmd_result reply (urgent_estop (codes "CMD_ESTOP") 3 [] node) in
    (c.acks ≡ [] ++ (3, reply) ∷ [])
    × (c.estop_raised ≡ false)
    × (find 3 c.pending ≡ some (record { done = false; ack_json = [] }))
urgent_estop-on_cmd_result_example =
    urgent_estop-on_cmd_result (codes "CMD_ESTOP") reply [] 3 3 node reply_seq refl

abbrev name : Text
name = codes "CMD"

bare : (c : ℕ) → 35 < c → c < 91 → IsBare c
bare c h k = (omega arith, omega arith, omega arith)

name-All : All IsBare name
name-All = (
  bare 67 (omega arith) (omega arith),
  (bare 77 (omega arith) (omega arith), (bare 68 (omega arith) (omega arith), tt)),
)

extract_string-envelope_example :
    extract_string (envelope name 12 (codes "{}")) (codes "cmd") ≡ some name
extract_string-envelope_example = extract_string-envelope name 12 (codes "{}") name-All

abbrev result : CmdResult
result = record {
  seq = 12;
  cmd = codes "CMD_MODE";
  ok = true;
  status = accepts;
  reason = no_reason;
  task_id = [];
}

get_int-cmd_result_json_example : get_int (cmd_result_json result) (codes "seq") ≡ some 12
get_int-cmd_result_json_example = get_int-cmd_result_json result (omega arith)

node-IsWaiting : IsWaiting 3 node
unfolding find
node-IsWaiting = record { calm = refl; no_stop = refl; entry = refl }

wait_cmd_result_replied_example :
    (wait_cmd_result (idle_rounds 2 (on_cmd_result reply ∷ [])) 3 (codes "CMD_MODE") node).0 ≡ reply
wait_cmd_result_replied_example =
    wait_cmd_result_replied 2 [] 3 3 (codes "CMD_MODE") reply node node-IsWaiting reply_seq refl
