-- ===== src/Bridge.antt =====
-- The bridge between the console's TCP clients and the robot's topics: the constants of the
-- protocol (bridge/include/botcockpit_bridge/protocol.hpp).
pub mod Clients
pub mod Runtime
pub mod Server
pub mod Node
mod Tests
use bot_cock_pit.Prelude.{ℕ, ◌==◌, if◌then◌else◌}
use bot_cock_pit.Text.{Text, codes}

abbrev pub msg_heartbeat : ℕ
msg_heartbeat = 0x01

abbrev pub msg_hello : ℕ
msg_hello = 0x02

abbrev pub msg_hello_ack : ℕ
msg_hello_ack = 0x03

abbrev pub msg_state_snapshot : ℕ
msg_state_snapshot = 0x10

abbrev pub msg_state_delta : ℕ
msg_state_delta = 0x11

abbrev pub msg_cmd_mode : ℕ
msg_cmd_mode = 0x20

abbrev pub msg_cmd_task : ℕ
msg_cmd_task = 0x21

abbrev pub msg_cmd_estop : ℕ
msg_cmd_estop = 0x22

abbrev pub msg_cmd_reset : ℕ
msg_cmd_reset = 0x23

abbrev pub msg_cmd_ack : ℕ
msg_cmd_ack = 0x2F

abbrev pub msg_event_fault : ℕ
msg_event_fault = 0x30

abbrev pub msg_param_get : ℕ
msg_param_get = 0x40

abbrev pub msg_param_set : ℕ
msg_param_set = 0x41

abbrev pub msg_param_ack : ℕ
msg_param_ack = 0x42

abbrev pub hb_interval_ms : ℕ
hb_interval_ms = 1000

abbrev pub hb_timeout_ms : ℕ
hb_timeout_ms = 3000

abbrev pub proto_version : Text
proto_version = codes "0.1"

abbrev pub server_name : Text
server_name = codes "botcockpit_bridge/0.1.0"

unfoldable pub msg_type_name : ℕ → Text
msg_type_name type =
    if type == msg_heartbeat
    then codes "HEARTBEAT"
    else if type == msg_hello
    then codes "HELLO"
    else if type == msg_hello_ack
    then codes "HELLO_ACK"
    else if type == msg_state_snapshot
    then codes "STATE_SNAPSHOT"
    else if type == msg_state_delta
    then codes "STATE_DELTA"
    else if type == msg_cmd_mode
    then codes "CMD_MODE"
    else if type == msg_cmd_task
    then codes "CMD_TASK"
    else if type == msg_cmd_estop
    then codes "CMD_ESTOP"
    else if type == msg_cmd_reset
    then codes "CMD_RESET"
    else if type == msg_cmd_ack
    then codes "CMD_ACK"
    else if type == msg_event_fault
    then codes "EVENT_FAULT"
    else if type == msg_param_get
    then codes "PARAM_GET"
    else if type == msg_param_set
    then codes "PARAM_SET"
    else if type == msg_param_ack
    then codes "PARAM_ACK"
    else codes "UNKNOWN"
