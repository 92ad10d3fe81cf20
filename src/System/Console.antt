-- ===== src/System/Console.antt =====
-- An emergency stop from the console's worker to the robot.
use mathlib.Core.List.{cons≢nil}
use bot_cock_pit.Prelude.{
  ℕ, ◌+◌, ◌≡◌, ◌≢◌, ◌≤◌, sym, ap, ◌∙◌, ◌||◌, true, List, [], ◌∷◌, length, drop, drop-append, arith,
}
use bot_cock_pit.Text.{Text, codes}
use bot_cock_pit.Floats.{Floats}
use bot_cock_pit.Codec
use bot_cock_pit.Codec.{Frame, receive, max_frame_length}
use bot_cock_pit.Codec.RoundTrip.{IsValid, encode}
use bot_cock_pit.Codec.Stream.{receive-encode}
use bot_cock_pit.Robot.Command.Task.{Planner}
use bot_cock_pit.Bridge.Server.{is_estop}
use bot_cock_pit.Bridge.Server.Batch.{filter}
use bot_cock_pit.Bridge.Server.Handle.{IsReady}
use bot_cock_pit.Ui.Frames.Agree.{encode_frame-agrees}
use bot_cock_pit.Ui.Worker.{Qt, Worker, is_connected, send_cmd_estop}
use bot_cock_pit.Ui.Worker.Sound.{IsNumbered}
use bot_cock_pit.Ui.Worker.Sends.{send_cmd_estop-wire}
use bot_cock_pit.System.{System, recv_through}
use bot_cock_pit.System.Stop.{recv_through-stops}

abbrev pub stop_payload : (Q : Qt) → Text → List ℕ
stop_payload Q reason = Q.compact ((codes "reason", Q.of_text reason) ∷ [])

-- The bytes that a worker has written since it was `w`.
abbrev pub written_since : {Q : Qt} → Worker Q → Worker Q → List ℕ
written_since w t = drop (length w.wire) t.wire

abbrev stop_frame : ℕ → List ℕ → Frame
stop_frame seq payload = record { type = 0x22; flags = 3; seq = seq; payload = payload }

stop_first : (seq : ℕ) (payload : List ℕ) → filter is_estop (stop_frame seq payload ∷ []) ≢ []
unfolding filter
stop_first seq payload e = cons≢nil e

module _ {Q : Qt} {F : Floats} (plan : Planner F) where
  -- The bytes that a connected worker of the console writes for an emergency stop, delivered in
  -- one recv to a server that is connected to it, has nothing in that client's decoder and has
  -- its urgent handler, stop the robot, if it has its topics and the payload fits into a frame;
  -- nothing that the node publishes is lost.
  pub send_cmd_estop-stops :
      (now i : ℕ) (reason : Text) (w : Worker Q) (sys : System F)
      → IsNumbered w
      → is_connected w.socket ≡ true
      → length (stop_payload Q reason) + 4 ≤ max_frame_length
      → IsReady i sys.server
      → (sys.server.store i).decoder ≡ []
      → sys.robot.topics ≡ true
      → (recv_through plan now i (written_since w (send_cmd_estop reason w)) sys).robot.estop ≡ true
  unfolding encode Codec.encode_frame
  send_cmd_estop-stops now i reason w sys v h fits ready empty heard =
      let f : Frame = stop_frame w.next_seq (stop_payload Q reason) in
      let valid : IsValid f = record {
        type_byte = omega arith;
        flags_byte = omega arith;
        seq_word = v.seq_high;
        fits = fits;
      } in
      let bytes : written_since w (send_cmd_estop reason w) ≡ encode f =
        ap (drop (length w.wire)) (send_cmd_estop-wire reason w v h)
        ∙ drop-append w.wire _
        ∙ encode_frame-agrees 0x22 3 w.next_seq (stop_payload Q reason) in
      let frames : (receive (sys.server.store i).decoder
            (written_since w (send_cmd_estop reason w))).0
          ≡ f ∷ [] =
        ap (λ d. (receive d (written_since w (send_cmd_estop reason w))).0) empty
        ∙ ap (λ b. (receive [] b).0) bytes
        ∙ receive-encode f valid in
      recv_through-stops plan now i _ sys ready (λ none.
        stop_first w.next_seq (stop_payload Q reason) (sym (ap (filter is_estop) frames) ∙ none))
      ∙ ap (λ b. b || sys.robot.estop) heard
