-- ===== src/Ui/Worker.antt =====
-- The console's worker (ui/botcockpit/src/socketworker.cpp): the client's side of the connection.
mod Tests
pub mod Receive
pub mod Texts
pub mod Sound
pub mod Sends
use mathlib.Core.List.{foldl}
use bot_cock_pit.Prelude.{
  ℕ, suc, ◌+◌, ◌-◌, ◌%◌, ◌^◌, Bool, true, false, not, ◌&&◌, ◌||◌, List, [], ◌∷◌, ◌++◌, Option, none,
  some, ltb, ◌==◌, if◌then◌else◌, length,
}
use mathlib.Core.Option
use bot_cock_pit.Int.{ℤ, pos, negsuc}
use bot_cock_pit.Text.{Text, codes, text_eq}
use bot_cock_pit.Codec.{Frame}
use bot_cock_pit.Ui.Frames.{encode_frame, drain}

-- What the worker uses of Qt's JSON: nothing is assumed of it. A `double` is a `Number`.
pub record Qt : Type 1 where
  pub Object : Type 0
  pub Value : Type 0
  pub Number : Type 0
  pub parse : List ℕ → Object  -- `QJsonDocument::fromJson(payload).object()`
  pub compact : List (Text × Value) → List ℕ  -- `toJson(QJsonDocument::Compact)`
  pub of_text : Text → Value
  pub of_bool : Bool → Value
  pub of_int : ℕ → Value
  pub of_number : Number → Value
  pub contains : Object → Text → Bool
  pub value : Object → Text → Value
  pub insert : Object → Text → Value → Object
  pub is_null : Value → Bool
  pub to_bool : Value → Bool
  pub to_text : Value → Text
  pub to_list : Value → List Value

pub data SocketState : Type 0 where
  unconnected busy connected : SocketState

-- The signals that the worker emits.
pub data Signal (Q : Qt) : Type 0 where
  on_connected on_disconnected : Signal Q
  hello_ack : Bool → Text → Text → Text → Signal Q
  state_updated : Q.Object → Signal Q
  nodes_updated : List Q.Value → Signal Q
  rtt_updated : ℤ → Signal Q
  cmd_ack : Q.Object → Signal Q
  error_occurred : Text → Signal Q

-- `wire` is what was written to the socket, and `signals` what was emitted, in order.
pub record Worker (Q : Qt) : Type 0 where
  pub socket : SocketState
  pub hb_running : Bool
  pub timeout_running : Bool
  pub decoder : List ℕ
  pub next_seq : ℕ  -- uint16_t
  pub hb_send_ts : List (ℕ × ℕ)
  pub pending_cmd_name : List (ℕ × Text)
  pub last_rx_ms : ℕ
  pub hello_sent : Bool
  pub hello_ok : Bool
  pub wire : List ℕ
  pub signals : List (Signal Q)

abbrev pub is_connected : SocketState → Bool
is_connected connected = true
is_connected _ = false

-- `QHash`: a key stands at most once.
unfoldable pub lookup {ℓ} : {A : Type ℓ} → ℕ → List (ℕ × A) → Option A
lookup k [] = none
lookup k ((i, a) ∷ xs) = if i == k then some a else lookup k xs

unfoldable pub remove {ℓ} : {A : Type ℓ} → ℕ → List (ℕ × A) → List (ℕ × A)
remove k [] = []
remove k ((i, a) ∷ xs) = let rest = remove k xs in if i == k then rest else (i, a) ∷ rest

unfoldable pub insert {ℓ} : {A : Type ℓ} → ℕ → A → List (ℕ × A) → List (ℕ × A)
unfolding remove
insert k a xs = (k, a) ∷ remove k xs

-- `next_seq_++`, which skips 0.
abbrev pub seq_after : ℕ → ℕ
seq_after n = let m = (n + 1) % 2 ^ 16 in if m == 0 then 1 else m

-- A difference of times as an `int`.
abbrev pub to_int : ℕ → ℕ → ℤ
to_int a b =
    let u = (a % 2 ^ 32 + 2 ^ 32 - b % 2 ^ 32) % 2 ^ 32 in
    if ltb u (2 ^ 31) then pos u else negsuc (2 ^ 32 - u - 1)

abbrev pub hello : (Q : Qt) → List ℕ
hello Q = Q.compact (
    (codes "client", Q.of_text (codes "BotCockpit"))
    ∷ (codes "ui_version", Q.of_text (codes "0.1.0"))
    ∷ (codes "proto_min", Q.of_text (codes "0.1"))
    ∷ (codes "proto_max", Q.of_text (codes "0.1"))
    ∷ [])

module _ {Q : Qt} where
  abbrev pub emit : Signal Q → Worker Q → Worker Q
  emit s w = record w { signals = w.signals ++ s ∷ [] }

  unfoldable pub connect_to_host : ℕ → Worker Q → Worker Q
  connect_to_host now w = record w {
    socket = busy;
    decoder = [];
    hb_send_ts = [];
    pending_cmd_name = [];
    hello_sent = false;
    hello_ok = false;
    last_rx_ms = now;
  }

  -- The socket is closed at once, by `abort` if it must be.
  unfoldable pub disconnect_from_host : Worker Q → Worker Q
  disconnect_from_host w = record w {
    hb_running = false;
    timeout_running = false;
    socket = unconnected;
  }

  unfoldable pub fail_and_close : Text → Worker Q → Worker Q
  unfolding disconnect_from_host
  fail_and_close message w = disconnect_from_host (emit (error_occurred message) w)

  abbrev pub write : ℕ → ℕ → List ℕ → Worker Q → Worker Q
  unfolding encode_frame
  write type flags payload w = record w {
    next_seq = seq_after w.next_seq;
    wire = w.wire ++ encode_frame type flags w.next_seq payload;
  }

  -- The number of the frame, 0 if it was not sent.
  unfoldable pub send_frame : ℕ → ℕ → List ℕ → Worker Q → ℕ × Worker Q
  unfolding encode_frame
  send_frame type flags payload w =
      if is_connected w.socket then (w.next_seq, write type flags payload w) else (0, w)

  unfoldable pub on_socket_connected : ℕ → Worker Q → Worker Q
  unfolding send_frame
  on_socket_connected now w =
      let greeted =
        (send_frame 0x02 0 (hello Q)
          (record (emit on_connected w) { socket = connected; last_rx_ms = now })).1 in
      record greeted { hello_sent = true; hb_running = true; timeout_running = true }

  unfoldable pub on_socket_disconnected : Worker Q → Worker Q
  on_socket_disconnected w =
      emit on_disconnected
        (record w { socket = unconnected; hb_running = false; timeout_running = false })

  -- The end of each of the functions that send a command.
  abbrev pub note_command : Text → ℕ × Worker Q → Worker Q
  unfolding insert
  note_command name (seq, w) =
      if seq == 0 then w else record w { pending_cmd_name = insert seq name w.pending_cmd_name }

  unfoldable pub send_cmd_mode : Text → Worker Q → Worker Q
  unfolding send_frame note_command
  send_cmd_mode mode w =
      note_command (codes "CMD_MODE")
        (send_frame 0x20 1 (Q.compact ((codes "mode", Q.of_text mode) ∷ [])) w)

  unfoldable pub send_cmd_task : Text → Text → Q.Number → Q.Number → Q.Number → Worker Q → Worker Q
  unfolding send_frame note_command
  send_cmd_task task_id type x y timeout_s w =
      let goal =
        if text_eq type (codes "goto")
        then (codes "x", Q.of_number x)
          ∷ (codes "y", Q.of_number y)
          ∷ (codes "timeout_s", Q.of_number timeout_s)
          ∷ []
        else [] in
      note_command (codes "CMD_TASK") (
        send_frame 0x21 1
          (Q.compact ((codes "task_id", Q.of_text task_id) ∷ (codes "type", Q.of_text type) ∷ goal))
          w)

  unfoldable pub send_cmd_estop : Text → Worker Q → Worker Q
  unfolding send_frame note_command
  send_cmd_estop reason w =
      note_command (codes "CMD_ESTOP")
        (send_frame 0x22 3 (Q.compact ((codes "reason", Q.of_text reason) ∷ [])) w)

  unfoldable pub send_cmd_reset : Worker Q → Worker Q
  unfolding send_frame note_command
  send_cmd_reset w =
      note_command (codes "CMD_RESET")
        (send_frame 0x23 1 (Q.compact ((codes "confirm", Q.of_bool true) ∷ [])) w)
