-- ===== src/Ui/Worker/Receive.antt =====
-- What the worker's timers and its socket's data do (ui/botcockpit/src/socketworker.cpp), and the
-- order of all its events.
use mathlib.Core.List.{foldl}
use mathlib.Core.Option
use bot_cock_pit.Prelude.{
  ℕ, suc, ◌+◌, ◌-◌, ◌%◌, ◌^◌, not, ◌&&◌, ◌||◌, List, [], ◌∷◌, ◌++◌, ltb, ◌==◌, if◌then◌else◌,
  length,
}
use bot_cock_pit.Text.{Text, codes, text_eq}
use bot_cock_pit.Codec.{Frame}
use bot_cock_pit.Ui.Frames.{drain}
use bot_cock_pit.Ui.Worker.{
  Qt, Worker, is_connected, lookup, remove, insert, emit, write, fail_and_close, to_int, hello_ack,
  rtt_updated, state_updated, nodes_updated, cmd_ack, connect_to_host, disconnect_from_host,
  on_socket_connected, on_socket_disconnected, send_cmd_mode, send_cmd_task, send_cmd_estop,
  send_cmd_reset,
}

abbrev pub text_at : (Q : Qt) → Q.Object → Text → Text
text_at Q obj key = Q.to_text (Q.value obj key)

-- The acknowledgement with the number and the name filled in where they are missing.
unfoldable pub fill_ack : (Q : Qt) → ℕ → Text → Q.Object → Q.Object
fill_ack Q seq name ack =
    let missing = not (Q.contains ack (codes "seq")) || Q.is_null (Q.value ack (codes "seq")) in
    let numbered = if missing then Q.insert ack (codes "seq") (Q.of_int seq) else ack in
    if Q.contains numbered (codes "cmd")
    then numbered
    else Q.insert numbered (codes "cmd") (Q.of_text name)

module _ {Q : Qt} where
  unfoldable pub on_heartbeat_tick : ℕ → Worker Q → Worker Q
  unfolding write insert
  on_heartbeat_tick now w =
      let payload =
        Q.compact
          ((codes "ts_ms", Q.of_int now) ∷ (codes "role", Q.of_text (codes "console")) ∷ []) in
      if is_connected w.socket
      then write 0x01 0 payload (record w { hb_send_ts = insert w.next_seq now w.hb_send_ts })
      else w

  -- The difference of the times is unsigned, in 64 bits.
  unfoldable pub on_timeout_tick : ℕ → Worker Q → Worker Q
  unfolding fail_and_close
  on_timeout_tick now w =
      let silence = (now + (2 ^ 64 - w.last_rx_ms)) % 2 ^ 64 in
      if is_connected w.socket && (not (w.last_rx_ms == 0) && ltb 3000 silence)
      then fail_and_close (codes "heartbeat timeout") w
      else w

  unfoldable pub on_hello_ack : Q.Object → Worker Q → Worker Q
  on_hello_ack obj w =
      let ok = Q.to_bool (Q.value obj (codes "ok")) in
      emit
        (hello_ack ok (text_at Q obj (codes "proto")) (text_at Q obj (codes "server"))
          (text_at Q obj (codes "reason")))
        (record w { hello_ok = ok })

  -- `take` returns 0 for a number that is not there.
  unfoldable pub on_heartbeat : ℕ → ℕ → Q.Object → Worker Q → Worker Q
  unfolding lookup remove
  on_heartbeat now seq obj w =
      let send_ts = Option.get_or (lookup seq w.hb_send_ts) 0 in
      let taken = record w { hb_send_ts = remove seq w.hb_send_ts } in
      if text_eq (text_at Q obj (codes "role")) (codes "bridge")
      then (if ltb 0 send_ts then emit (rtt_updated (to_int now send_ts)) taken else taken)
      else w

  unfoldable pub on_state : Q.Object → Worker Q → Worker Q
  on_state obj w =
      let updated = emit (state_updated obj) w in
      if Q.contains obj (codes "nodes")
      then emit (nodes_updated (Q.to_list (Q.value obj (codes "nodes")))) updated
      else updated

  unfoldable pub on_cmd_ack : ℕ → Q.Object → Worker Q → Worker Q
  unfolding lookup remove fill_ack
  on_cmd_ack seq ack w =
      let name = Option.get_or (lookup seq w.pending_cmd_name) [] in
      emit (cmd_ack (fill_ack Q seq name ack))
        (record w { pending_cmd_name = remove seq w.pending_cmd_name })

  unfoldable pub handle_frame : ℕ → Frame → Worker Q → Worker Q
  unfolding on_hello_ack on_heartbeat on_state on_cmd_ack
  handle_frame now frame w =
      let obj = Q.parse frame.payload in
      if frame.type == 0x03
      then on_hello_ack obj w
      else if frame.type == 0x01
      then on_heartbeat now frame.seq obj w
      else if frame.type == 0x10 || frame.type == 0x11
      then on_state obj w
      else if frame.type == 0x2f
      then on_cmd_ack frame.seq obj w
      else w

  -- Handling a frame leaves the decoder alone, so all frames are taken out first.
  unfoldable pub on_ready_read : ℕ → List ℕ → Worker Q → Worker Q
  unfolding handle_frame drain
  on_ready_read now bytes w =
      let buf = w.decoder ++ bytes in
      let (frames, left) = drain (suc (length buf)) buf in
      foldl (λ w f. handle_frame now f w) (record w { last_rx_ms = now; decoder = left }) frames

-- A slot of the worker, with the time that it reads.
pub data Event (Q : Qt) : Type 0 where
  connect : Event Q
  disconnect : Event Q
  connected : Event Q
  disconnected : Event Q
  socket_error : Text → Event Q
  ready_read : List ℕ → Event Q
  heartbeat_tick : Event Q
  timeout_tick : Event Q
  mode : Text → Event Q
  task : Text → Text → Q.Number → Q.Number → Q.Number → Event Q
  estop : Text → Event Q
  reset : Event Q

module _ {Q : Qt} where
  unfoldable pub step : ℕ × Event Q → Worker Q → Worker Q
  unfolding connect_to_host disconnect_from_host on_socket_connected on_socket_disconnected
      fail_and_close on_ready_read on_heartbeat_tick on_timeout_tick send_cmd_mode send_cmd_task
      send_cmd_estop send_cmd_reset
  step (now, connect) w = connect_to_host now w
  step (now, disconnect) w = disconnect_from_host w
  step (now, connected) w = on_socket_connected now w
  step (now, disconnected) w = on_socket_disconnected w
  step (now, socket_error message) w = fail_and_close message w
  step (now, ready_read bytes) w = on_ready_read now bytes w
  step (now, heartbeat_tick) w = on_heartbeat_tick now w
  step (now, timeout_tick) w = on_timeout_tick now w
  step (now, mode m) w = send_cmd_mode m w
  step (now, task task_id type x y timeout_s) w = send_cmd_task task_id type x y timeout_s w
  step (now, estop reason) w = send_cmd_estop reason w
  step (now, reset) w = send_cmd_reset w

  unfoldable pub run : List (ℕ × Event Q) → Worker Q → Worker Q
  unfolding step
  run [] w = w
  run (e ∷ es) w = run es (step e w)
