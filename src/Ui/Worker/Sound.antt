-- ===== src/Ui/Worker/Sound.antt =====
-- The worker between two events (ui/botcockpit/src/socketworker.cpp).
use mathlib.Core.List.{foldl}
use bot_cock_pit.Prelude.{
  ℕ, ◌^◌, ◌<◌, ◌≡◌, refl, sym, ◌∙◌, false, ◌||◌, List, [], ◌∷◌, ◌++◌, arith, ltb, ◌==◌, if-both,
  length, suc,
}
use mathlib.Core.Option
use bot_cock_pit.Text.{Text, codes, text_eq}
use bot_cock_pit.Codec.{Frame}
use bot_cock_pit.Ui.Frames.{drain}
use bot_cock_pit.Ui.Worker.{
  Qt, Worker, unconnected, is_connected, seq_after, write, send_frame, note_command, lookup,
  connect_to_host, disconnect_from_host, on_socket_connected, on_socket_disconnected,
  fail_and_close, send_cmd_mode, send_cmd_task, send_cmd_estop, send_cmd_reset,
}
use bot_cock_pit.Ui.Worker.Receive.{
  Event, step, run, on_heartbeat_tick, on_timeout_tick, on_hello_ack, on_heartbeat, on_state,
  on_cmd_ack, handle_frame, on_ready_read, text_at, connect, disconnect, connected, disconnected,
  socket_error, ready_read, heartbeat_tick, timeout_tick, mode, task, estop, reset,
}

-- The next number is one that marks a frame as sent, and a closed socket has no timer running.
pub record IsNumbered {Q : Qt} (w : Worker Q) : Type 0 where
  pub seq_low : 0 < w.next_seq
  pub seq_high : w.next_seq < 2 ^ 16
  pub hb_stopped : w.socket ≡ unconnected → w.hb_running ≡ false
  pub timeout_stopped : w.socket ≡ unconnected → w.timeout_running ≡ false

pub seq_after-bounds : (n : ℕ) → (0 < seq_after n) × (seq_after n < 2 ^ 16)
seq_after-bounds n = (ground arith, ground arith)

module _ {Q : Qt} where
  -- What soundness looks at.
  carry-IsNumbered :
      (w t : Worker Q)
      → IsNumbered w
      → t.next_seq ≡ w.next_seq
      → t.socket ≡ w.socket
      → t.hb_running ≡ w.hb_running
      → t.timeout_running ≡ w.timeout_running
      → IsNumbered t
  carry-IsNumbered w t v seq socket hb timeout = record {
    seq_low = omega (arith, seq, v.seq_low);
    seq_high = omega (arith, seq, v.seq_high);
    hb_stopped = λ e. hb ∙ v.hb_stopped (sym socket ∙ e);
    timeout_stopped = λ e. timeout ∙ v.timeout_stopped (sym socket ∙ e);
  }

  write-IsNumbered :
      (type flags : ℕ) (payload : List ℕ) (w : Worker Q)
      → IsNumbered w
      → IsNumbered (write type flags payload w)
  unfolding write
  write-IsNumbered type flags payload w v =
      let (low, high) = seq_after-bounds w.next_seq in
      record {
        seq_low = low;
        seq_high = high;
        hb_stopped = v.hb_stopped;
        timeout_stopped = v.timeout_stopped;
      }

  -- The worker that a send leaves.
  record IsSent (r : ℕ × Worker Q) : Type 0 where
    sound : IsNumbered r.1

  send_frame-IsSent :
      (type flags : ℕ) (payload : List ℕ) (w : Worker Q)
      → IsNumbered w
      → IsSent (send_frame type flags payload w)
  unfolding send_frame
  send_frame-IsSent type flags payload w v =
      if-both IsSent (is_connected w.socket)
        (record { sound = write-IsNumbered type flags payload w v }) (record { sound = v })

  note_command-IsNumbered :
      (name : Text) (r : ℕ × Worker Q) → IsSent r → IsNumbered (note_command name r)
  unfolding note_command
  note_command-IsNumbered name (seq, w) s =
      if-both IsNumbered (seq == 0) s.sound (carry-IsNumbered w _ s.sound refl refl refl refl)

  closed-IsNumbered : (w : Worker Q) → IsNumbered w → IsNumbered (disconnect_from_host w)
  unfolding disconnect_from_host
  closed-IsNumbered w v = record {
    seq_low = v.seq_low;
    seq_high = v.seq_high;
    hb_stopped = λ _. refl;
    timeout_stopped = λ _. refl;
  }

  fail_and_close-IsNumbered :
      (message : Text) (w : Worker Q) → IsNumbered w → IsNumbered (fail_and_close message w)
  unfolding fail_and_close
  fail_and_close-IsNumbered message w v =
      closed-IsNumbered _ (carry-IsNumbered w _ v refl refl refl refl)

  on_hello_ack-IsNumbered :
      (obj : Q.Object) (w : Worker Q) → IsNumbered w → IsNumbered (on_hello_ack obj w)
  unfolding on_hello_ack
  on_hello_ack-IsNumbered obj w v = carry-IsNumbered w _ v refl refl refl refl

  on_heartbeat-IsNumbered :
      (now seq : ℕ) (obj : Q.Object) (w : Worker Q)
      → IsNumbered w
      → IsNumbered (on_heartbeat now seq obj w)
  unfolding on_heartbeat
  on_heartbeat-IsNumbered now seq obj w v =
      if-both IsNumbered (text_eq (text_at Q obj (codes "role")) (codes "bridge"))
        (if-both IsNumbered (ltb 0 (Option.get_or (lookup seq w.hb_send_ts) 0))
          (carry-IsNumbered w _ v refl refl refl refl) (carry-IsNumbered w _ v refl refl refl refl))
        v

  on_state-IsNumbered : (obj : Q.Object) (w : Worker Q) → IsNumbered w → IsNumbered (on_state obj w)
  unfolding on_state
  on_state-IsNumbered obj w v =
      if-both IsNumbered (Q.contains obj (codes "nodes"))
        (carry-IsNumbered w _ v refl refl refl refl) (carry-IsNumbered w _ v refl refl refl refl)

  on_cmd_ack-IsNumbered :
      (seq : ℕ) (obj : Q.Object) (w : Worker Q) → IsNumbered w → IsNumbered (on_cmd_ack seq obj w)
  unfolding on_cmd_ack
  on_cmd_ack-IsNumbered seq obj w v = carry-IsNumbered w _ v refl refl refl refl

  handle_frame-IsNumbered :
      (now : ℕ) (f : Frame) (w : Worker Q) → IsNumbered w → IsNumbered (handle_frame now f w)
  unfolding handle_frame
  handle_frame-IsNumbered now f w v =
      let obj = Q.parse f.payload in
      if-both IsNumbered (f.type == 0x03) (on_hello_ack-IsNumbered obj w v) (
        if-both IsNumbered (f.type == 0x01) (on_heartbeat-IsNumbered now f.seq obj w v) (
          if-both IsNumbered (f.type == 0x10 || f.type == 0x11) (on_state-IsNumbered obj w v)
            (if-both IsNumbered (f.type == 0x2f) (on_cmd_ack-IsNumbered f.seq obj w v) v)))

  handle_all-IsNumbered :
      (now : ℕ) (fs : List Frame) (w : Worker Q)
      → IsNumbered w
      → IsNumbered (foldl (λ w f. handle_frame now f w) w fs)
  handle_all-IsNumbered now [] w v = v
  handle_all-IsNumbered now (f ∷ fs) w v =
      handle_all-IsNumbered now fs _ (handle_frame-IsNumbered now f w v)

  on_socket_connected-IsNumbered :
      (now : ℕ) (w : Worker Q) → IsNumbered w → IsNumbered (on_socket_connected now w)
  unfolding on_socket_connected send_frame
  on_socket_connected-IsNumbered now w v =
      let (low, high) = seq_after-bounds w.next_seq in
      record {
        seq_low = low;
        seq_high = high;
        hb_stopped = λ e. absurd (ground (arith, e));
        timeout_stopped = λ e. absurd (ground (arith, e));
      }

  step-IsNumbered : (e : ℕ × Event Q) (w : Worker Q) → IsNumbered w → IsNumbered (step e w)
  unfolding step connect_to_host on_socket_disconnected on_heartbeat_tick on_timeout_tick
      on_ready_read send_cmd_mode send_cmd_task send_cmd_estop send_cmd_reset
  step-IsNumbered (now, connect) w v = record {
    seq_low = v.seq_low;
    seq_high = v.seq_high;
    hb_stopped = λ e. absurd (ground (arith, e));
    timeout_stopped = λ e. absurd (ground (arith, e));
  }
  step-IsNumbered (now, disconnect) w v = closed-IsNumbered w v
  step-IsNumbered (now, connected) w v = on_socket_connected-IsNumbered now w v
  step-IsNumbered (now, disconnected) w v = record {
    seq_low = v.seq_low;
    seq_high = v.seq_high;
    hb_stopped = λ _. refl;
    timeout_stopped = λ _. refl;
  }
  step-IsNumbered (now, socket_error message) w v = fail_and_close-IsNumbered message w v
  step-IsNumbered (now, ready_read bytes) w v =
      let buf = w.decoder ++ bytes in
      let r = drain (suc (length buf)) buf in
      let t = record w { last_rx_ms = now; decoder = r.1 } in
      handle_all-IsNumbered now r.0 t (carry-IsNumbered w t v refl refl refl refl)
  step-IsNumbered (now, heartbeat_tick) w v =
      if-both IsNumbered (is_connected w.socket)
        (write-IsNumbered 0x01 0 _ _ (carry-IsNumbered w _ v refl refl refl refl)) v
  step-IsNumbered (now, timeout_tick) w v = if-both IsNumbered _ (fail_and_close-IsNumbered _ w v) v
  step-IsNumbered (now, mode m) w v = note_command-IsNumbered _ _ (send_frame-IsSent _ _ _ w v)
  step-IsNumbered (now, task task_id type x y timeout_s) w v =
      note_command-IsNumbered _ _ (send_frame-IsSent _ _ _ w v)
  step-IsNumbered (now, estop reason) w v =
      note_command-IsNumbered _ _ (send_frame-IsSent _ _ _ w v)
  step-IsNumbered (now, reset) w v = note_command-IsNumbered _ _ (send_frame-IsSent _ _ _ w v)

  -- From a worker whose next number has 16 bits and is not 0, and whose timers stand while its
  -- socket is closed, every list of events leads to such a worker.
  pub run-IsNumbered :
      (es : List (ℕ × Event Q)) (w : Worker Q) → IsNumbered w → IsNumbered (run es w)
  unfolding run
  run-IsNumbered [] w v = v
  run-IsNumbered (e ∷ es) w v = run-IsNumbered es (step e w) (step-IsNumbered e w v)
