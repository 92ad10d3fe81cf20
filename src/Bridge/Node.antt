-- ===== src/Bridge/Node.antt =====
-- The bridge's ROS node (bridge/src/bridge_node.cpp, bridge/include/botcockpit_bridge/bridge_node.hpp).
-- The node is created and its publishers exist; `now` is what `now_ms` returns.
pub mod Envelope
pub mod Pending
use bot_cock_pit.Prelude.{
  ℕ, ◌+◌, ◌-◌, ◌%◌, ◌^◌, Bool, true, false, not, ◌&&◌, ◌||◌, List, [], ◌∷◌, ◌++◌, Option, none,
  some, ltb, ◌==◌, if◌then◌else◌, flat,
}
use mathlib.Core.Option
use bot_cock_pit.Text.{Text, codes, text_eq, is_empty, contains}
use bot_cock_pit.Text.Decimal.{to_string}
use bot_cock_pit.Json.{escape, get_int, get_bool}
use bot_cock_pit.Bridge.{hb_timeout_ms}

pub record PendingCmd : Type 0 where
  pub done : Bool
  pub ack_json : Text

-- `std::map<uint16_t, PendingCmd>`.
abbrev pub Pending : Type 0
Pending = List (ℕ × PendingCmd)

unfoldable pub find : ℕ → Pending → Option PendingCmd
find seq [] = none
find seq ((k, p) ∷ ps) = if k == seq then some p else find seq ps

unfoldable pub erase : ℕ → Pending → Pending
erase seq [] = []
erase seq ((k, p) ∷ ps) = let rest = erase seq ps in if k == seq then rest else (k, p) ∷ rest

-- `pending_[seq] = p`.
unfoldable pub assign : ℕ → PendingCmd → Pending → Pending
unfolding erase
assign seq p ps = (seq, p) ∷ erase seq ps

pub record Bridge : Type 0 where
  pub robot_state_json : Text
  pub last_robot_state_ms : ℕ
  pub pending : Pending
  pub estop_raised : Bool
  pub async_estop_seq_valid : Bool
  pub async_estop_seq : ℕ
  pub published : List Text  -- what was sent on `botcockpit/cmd`
  pub acks : List (ℕ × Text)  -- the calls of `complete_async_ack`

unfoldable pub robot_state_fresh : ℕ → Bridge → Bool
robot_state_fresh now b =
    let last = b.last_robot_state_ms in
    ltb 0 last && ltb ((now + (2 ^ 64 - last)) % 2 ^ 64) hb_timeout_ms

abbrev pub offline_state : ℕ → Text
offline_state now = flat (
    codes "{\"ts_ms\":"
    ∷ to_string now
    ∷ codes ",\"conn\":\"OFFLINE\",\"mode\":\"TELEOP\",\"phase\":\"BOOT\""
    ∷ codes ",\"heartbeat_rtt_ms\":0,\"nodes\":[]"
    ∷ codes ",\"pose\":{\"x\":0,\"y\":0,\"yaw\":0},\"battery\":0"
    ∷ codes ",\"task\":{\"id\":null,\"type\":null,\"status\":\"NONE\"}"
    ∷ codes ",\"faults\":[],\"estop\":false,\"control_enabled\":false}"
    ∷ [])

unfoldable pub state_for_tcp : ℕ → Bridge → Text
unfolding robot_state_fresh
state_for_tcp now b = if robot_state_fresh now b then b.robot_state_json else offline_state now

unfoldable pub on_robot_state : ℕ → Text → Bridge → Bridge
on_robot_state now msg b = record b { robot_state_json = msg; last_robot_state_ms = now }

unfoldable pub on_cmd_result : Text → Bridge → Bridge
unfolding find assign
on_cmd_result msg b = elim (get_int msg (codes "seq")) [
  | none ↦ b
  | some n ↦
      let seq = n % 2 ^ 16 in
      if b.async_estop_seq_valid && b.async_estop_seq == seq
      then record b {
        estop_raised = false;
        async_estop_seq_valid = false;
        acks = b.acks ++ (seq, msg) ∷ [];
      }
      else elim (find seq b.pending) [
        | none ↦ b
        | some p ↦ record b {
          pending = assign seq (record { done = true; ack_json = msg }) b.pending;
        }
      ]
]

-- The text on `botcockpit/console` of `delta_timer_cb`.
unfoldable pub console_msg : ℕ → Text
console_msg clients =
    codes "{\"online\":" ++ (if ltb 0 clients then codes "true" else codes "false") ++ codes "}"

unfoldable pub envelope : Text → ℕ → Text → Text
envelope cmd_name seq payload = flat (
    codes "{\"seq\":"
    ∷ to_string seq
    ∷ codes ",\"cmd\":\""
    ∷ escape cmd_name
    ∷ codes "\",\"payload\":"
    ∷ (if is_empty payload then codes "null" else payload)
    ∷ codes "}"
    ∷ [])

unfoldable pub publish_cmd_envelope : Text → ℕ → Text → Bridge → Bridge
unfolding envelope
publish_cmd_envelope cmd_name seq payload b = record b {
  published = b.published ++ envelope cmd_name seq payload ∷ [];
}

abbrev waiting : PendingCmd
waiting = record { done = false; ack_json = [] }

unfoldable pub urgent_estop : Text → ℕ → Text → Bridge → Bridge
unfolding assign
urgent_estop cmd_name seq payload b =
    let raised = record b {
      estop_raised = true;
      async_estop_seq = seq;
      async_estop_seq_valid = true;
      pending = assign seq waiting b.pending;
    } in
    publish_cmd_envelope (if is_empty cmd_name then codes "CMD_ESTOP" else cmd_name) seq payload
      raised

abbrev reject_json : ℕ → Text → Text → Text
reject_json seq cmd_name why = flat (
    codes "{\"seq\":"
    ∷ to_string seq
    ∷ codes ",\"ok\":false,\"cmd\":\""
    ∷ cmd_name
    ∷ codes "\",\"status\":\"REJECTED\",\"reason\":\""
    ∷ why
    ∷ codes "\"}"
    ∷ [])

-- The loop of `wait_cmd_result`: what the other threads do to the node before each round that the
-- deadline allows. The lock is taken for each passage, so a passage is a function of the state.
unfoldable pub wait_cmd_result : List (Bridge → Bridge) → ℕ → Text → Bridge → Text × Bridge
unfolding find erase
wait_cmd_result [] seq cmd_name b =
    (reject_json seq cmd_name (codes "timeout"), record b { pending = erase seq b.pending })
wait_cmd_result (others ∷ rounds) seq cmd_name b =
    let c = others b in
    let gone = record c { pending = erase seq c.pending } in
    let rest = wait_cmd_result rounds seq cmd_name c in
    if c.estop_raised
    then (reject_json seq cmd_name (codes "estop_active"), gone)
    else elim (find seq c.pending) [
      | none ↦ rest
      | some p ↦ if p.done then (p.ack_json, gone) else rest
    ]

-- The commands that a stopped robot would refuse.
abbrev pub is_motion : Text → Text → Bool
is_motion cmd_name payload =
    text_eq cmd_name (codes "CMD_TASK")
    || (text_eq cmd_name (codes "CMD_MODE") && contains (codes "\"AUTO\"") payload)

abbrev pub state_estop : Bridge → Bool
state_estop b = Option.get_or (get_bool b.robot_state_json (codes "estop")) false

abbrev estop_reply : ℕ → Text
estop_reply seq = flat (
    codes "{\"seq\":"
    ∷ to_string seq
    ∷ codes ",\"ok\":true,\"cmd\":\"CMD_ESTOP\",\"status\":\"EXECUTING\","
    ∷ codes "\"reason\":null}"
    ∷ [])

unfoldable pub handle_command :
    ℕ → List (Bridge → Bridge) → Text → ℕ → Text → Bridge → Text × Bridge
unfolding assign wait_cmd_result urgent_estop robot_state_fresh
handle_command now rounds cmd_name seq payload b =
    if text_eq cmd_name (codes "CMD_ESTOP")
    then (estop_reply seq, urgent_estop cmd_name seq payload b)
    else if not (robot_state_fresh now b)
    then (reject_json seq cmd_name (codes "timeout"), b)
    else if is_motion cmd_name payload && state_estop b
    then (reject_json seq cmd_name (codes "estop_active"), b)
    else wait_cmd_result rounds seq cmd_name (
        publish_cmd_envelope cmd_name seq payload
          (record b { pending = assign seq waiting b.pending }))
