-- ===== src/Bridge/Server.antt =====
-- The TCP server (bridge/src/tcp_server.cpp): what its threads do. Each function is one passage of
-- its thread between two waits; `now` and `state` are what `now_ms` and the state provider return.
pub mod Batch
pub mod Handle
pub mod Inject
pub mod Order
pub mod Same
pub mod Watchdog
pub mod Threads
use bot_cock_pit.Prelude.{
  ℕ, ◌+◌, ◌-◌, ◌*◌, ◌%◌, ◌^◌, Bool, true, false, not, ◌&&◌, ◌||◌, List, [], ◌∷◌, ◌++◌, Option, none,
  some, ltb, leb, ◌==◌, if◌then◌else◌, flat,
}
use mathlib.Core.Option
use bot_cock_pit.Text.{Text, codes, text_eq, is_empty, contains}
use bot_cock_pit.Text.Decimal.{to_string}
use bot_cock_pit.Json.{escape, get_string}
use bot_cock_pit.Codec.{Frame, Buffer, encode_frame, receive}
use bot_cock_pit.Bridge.{
  msg_heartbeat, msg_hello, msg_hello_ack, msg_state_snapshot, msg_state_delta, msg_cmd_mode,
  msg_cmd_task, msg_cmd_estop, msg_cmd_reset, msg_cmd_ack, msg_param_get, msg_param_set,
  msg_type_name, hb_interval_ms, hb_timeout_ms, proto_version, server_name,
}
use bot_cock_pit.Bridge.Clients.{
  Client, CmdJob, Handler, Server, put, is_open, send_frame, send_to_all, on_accept, remove_client,
  disconnect, count_ready, client_count,
}
use bot_cock_pit.Bridge.Runtime.{ends_with, pop_back, starts_object, inject_runtime_fields}

unfoldable pub enqueue_cmd : ℕ → Frame → Text → Server → Server
enqueue_cmd i frame cmd_name s =
    let job : CmdJob = record {
      client = i;
      seq = frame.seq;
      cmd_name = cmd_name;
      payload = frame.payload;
      urgent = frame.type == msg_cmd_estop;
    } in
    if not job.urgent
    then record s { cmd_queue = s.cmd_queue ++ job ∷ [] }
    else if s.has_urgent_handler
    then record s { urgent_calls = s.urgent_calls ++ (cmd_name, job.seq, job.payload) ∷ [] }
    else elim s.cmd_handler [
      | none ↦ s
      | some handler ↦ send_frame i msg_cmd_ack 0 job.seq (handler cmd_name job.seq job.payload) s
    ]

abbrev rejected : ℕ → Text → Text → Text
rejected seq cmd_name why = flat (
    codes "{\"seq\":"
    ∷ to_string seq
    ∷ codes ",\"ok\":false,\"cmd\":\""
    ∷ cmd_name
    ∷ codes "\",\"status\":\"REJECTED\",\"reason\":\""
    ∷ why
    ∷ codes "\"}"
    ∷ [])

-- What the worker answers to a job whose client is still connected.
unfoldable pub answer : Server → CmdJob → Text
answer s job =
    if not (s.store job.client).hello_ok
    then rejected job.seq job.cmd_name (codes "proto_error")
    else elim s.cmd_handler [
      | none ↦ rejected job.seq job.cmd_name (codes "not_implemented")
      | some handler ↦ handler job.cmd_name job.seq job.payload
    ]

-- One job of `cmd_worker_loop`.
unfoldable pub work : Server → Server
unfolding answer
work s = elim s.cmd_queue [
  | [] ↦ s
  | job ∷ jobs ↦
      let t = record s { cmd_queue = jobs } in
      if is_open (s.store job.client).fd
      then send_frame job.client msg_cmd_ack 0 job.seq (answer t job) t
      else t
]

unfoldable pub complete_async_ack : ℕ → Text → Server → Server
complete_async_ack seq ack_json s = send_to_all msg_cmd_ack seq ack_json s.members s

unfoldable pub broadcast_state_delta : Text → Server → Server
unfolding inject_runtime_fields
broadcast_state_delta state s =
    if not s.running
    then s
    else send_to_all msg_state_delta 0 (inject_runtime_fields state (codes "OFFLINE")) s.members s

abbrev pub accepts_proto : Text → Bool
accepts_proto payload =
    let proto_min = Option.get_or (get_string payload (codes "proto_min")) [] in
    let proto_max = Option.get_or (get_string payload (codes "proto_max")) [] in
    text_eq proto_min proto_version
    || (text_eq proto_max proto_version || (is_empty proto_min && is_empty proto_max))

abbrev hello_ack : Text
hello_ack =
    codes "{\"ok\":true,\"proto\":\""
    ++ proto_version
    ++ codes "\",\"server\":\""
    ++ server_name
    ++ codes "\"}"

-- The handshake that the server takes: the acknowledgement, the mark, then the snapshot.
abbrev welcome : Text → ℕ → Frame → Server → Server
welcome state i frame s =
    let t = send_frame i msg_hello_ack 0 frame.seq hello_ack s in
    let u = put i (record (t.store i) { hello_ok = true }) t in
    send_frame i msg_state_snapshot 0 0 (inject_runtime_fields state (codes "OFFLINE")) u

unfoldable pub on_hello : Text → ℕ → Frame → Server → Server
on_hello state i frame s =
    if accepts_proto frame.payload
    then welcome state i frame s
    else send_frame i msg_hello_ack 0 frame.seq
        (codes "{\"ok\":false,\"reason\":\"proto_unsupported\"}") s

abbrev pub beat : ℕ → Text
beat now = codes "{\"ts_ms\":" ++ to_string now ++ codes ",\"role\":\"bridge\"}"

unfoldable pub on_heartbeat : ℕ → ℕ → Frame → Server → Server
on_heartbeat now i frame s =
    let t = put i (record (s.store i) { last_hb_rx_ms = now }) s in
    send_frame i msg_heartbeat 0 frame.seq (beat now) t

abbrev pub is_command : ℕ → Bool
is_command type =
    type == msg_cmd_mode
    || (type == msg_cmd_task
        || (type == msg_cmd_estop
            || (type == msg_cmd_reset || (type == msg_param_get || type == msg_param_set))))

unfoldable pub handle_frame : ℕ → Text → ℕ → Frame → Server → Server
handle_frame now state i frame s =
    if frame.type == msg_hello
    then on_hello state i frame s
    else if frame.type == msg_heartbeat
    then on_heartbeat now i frame s
    else if is_command frame.type
    then enqueue_cmd i frame (msg_type_name frame.type) s
    else s

-- The loop over a batch, which ends when the client is closed.
unfoldable pub handle_batch : ℕ → Text → ℕ → List Frame → Server → Server
handle_batch now state i [] s = s
handle_batch now state i (f ∷ fs) s =
    let t = handle_frame now state i f s in
    let rest = handle_batch now state i fs t in if is_open (t.store i).fd then rest else t

abbrev pub is_estop : Frame → Bool
is_estop f = f.type == msg_cmd_estop

-- `std::stable_sort`, by insertion: `before` is its comparison.
unfoldable pub insert_sorted {ℓ} : {A : Type ℓ} → (A → A → Bool) → A → List A → List A
insert_sorted before x [] = x ∷ []
insert_sorted before x (y ∷ ys) =
    let rest = insert_sorted before x ys in if before y x then y ∷ rest else x ∷ y ∷ ys

unfoldable pub stable_sort {ℓ} : {A : Type ℓ} → (A → A → Bool) → List A → List A
unfolding insert_sorted
stable_sort before [] = []
stable_sort before (x ∷ xs) = insert_sorted before x (stable_sort before xs)

-- `(a.type == MSG_CMD_ESTOP) > (b.type == MSG_CMD_ESTOP)`.
unfoldable pub estop_first : List Frame → List Frame
estop_first = stable_sort (λ a b. is_estop a && not (is_estop b))

-- One `recv` of `client_loop` that returned bytes.
unfoldable pub on_recv : ℕ → Text → ℕ → List ℕ → Server → Server
on_recv now state i bytes s =
    let c = s.store i in
    let (batch, left) = receive c.decoder bytes in
    let t = put i (record c { last_rx_ms = now; decoder = left }) s in
    handle_batch now state i (estop_first batch) t

-- A difference of 64-bit unsigned numbers.
abbrev pub since : ℕ → ℕ → ℕ
since now ref = (now + (2 ^ 64 - ref)) % 2 ^ 64

-- Whether the watchdog shuts a client down.
unfoldable pub is_expired : ℕ → Client → Bool
is_expired now c =
    let ref = if c.hello_ok then c.last_hb_rx_ms else c.last_rx_ms in
    let limit = if c.hello_ok then hb_timeout_ms else hb_timeout_ms * 2 in
    is_open c.fd && (ltb 0 ref && ltb limit (since now ref))

-- The clients that one round of `heartbeat_watchdog` shuts down.
unfoldable pub expired : ℕ → Server → List ℕ → List ℕ
unfolding is_expired
expired now s [] = []
expired now s (i ∷ is) =
    let rest = expired now s is in if is_expired now (s.store i) then i ∷ rest else rest

-- One round: `last_tx` after it, the server and the clients shut down.
unfoldable pub heartbeat_watchdog : ℕ → ℕ → Server → ℕ × Server × List ℕ
heartbeat_watchdog now last_tx s =
    let due = leb hb_interval_ms (since now last_tx) in
    let t = if due then send_to_all msg_heartbeat 0 (beat now) s.members s else s in
    (if due then now else last_tx, t, expired now t t.members)
