-- ===== src/Ui/Remote/Control.antt =====
-- What the methods of the console's robot state do to the members that the connection rests on
-- (ui/botcockpit/src/robotstate.cpp).
use bot_cock_pit.Prelude.{ℕ, ◌≡◌, refl, ◌∙◌, Bool, arith, if-both}
use bot_cock_pit.Int.{ℤ}
use bot_cock_pit.Text.{Text, text_eq}
use bot_cock_pit.Ui.Remote.{Variants, Remote}
use bot_cock_pit.Ui.Remote.Apply.{apply_state}
use bot_cock_pit.Ui.Remote.Slots.{
  set_auto_reconnect, set_reconnect_attempts, append_log, set_last_cmd_ack, set_connecting,
  set_connected, set_error_string, set_endpoint, set_heartbeat_rtt, set_hello_info, reset_remote,
  set_host, set_port, set_proto, set_server,
}

pub record Control : Type 0 where
  pub connected : Bool
  pub connecting : Bool
  pub auto_reconnect : Bool
  pub attempts : ℕ

unfoldable pub control : {V : Variants} → Remote V → Control
control r = record {
  connected = r.connected;
  connecting = r.connecting;
  auto_reconnect = r.auto_reconnect;
  attempts = r.reconnect_attempts;
}

module _ {V : Variants} (r : Remote V) where
  control-set_host : (host : Text) → control (set_host host r) ≡ control r
  unfolding control
  control-set_host host =
      if-both (λ (t : Remote V). control t ≡ control r) (text_eq r.host host) refl refl

  control-set_port : (port : ℤ) → control (set_port port r) ≡ control r
  unfolding control
  control-set_port port = if-both (λ (t : Remote V). control t ≡ control r) _ refl refl

  control-set_proto : (proto : Text) → control (set_proto proto r) ≡ control r
  unfolding control
  control-set_proto proto =
      if-both (λ (t : Remote V). control t ≡ control r) (text_eq r.proto proto) refl refl

  control-set_server : (server : Text) → control (set_server server r) ≡ control r
  unfolding control
  control-set_server server =
      if-both (λ (t : Remote V). control t ≡ control r) (text_eq r.server server) refl refl

module _ {V : Variants} (r : Remote V) where
  pub control-set_endpoint :
      (host : Text) (port : ℤ) → control (set_endpoint host port r) ≡ control r
  unfolding set_endpoint
  control-set_endpoint host port = control-set_port (set_host host r) port ∙ control-set_host r host

  pub control-set_hello_info :
      (proto server : Text) → control (set_hello_info proto server r) ≡ control r
  unfolding set_hello_info
  control-set_hello_info proto server =
      control-set_server (set_proto proto r) server ∙ control-set_proto r proto

  pub control-set_connected :
      (v : Bool) → control (set_connected v r) ≡ record (control r) { connected = v }
  unfolding control set_connected
  control-set_connected v = ground arith

  pub control-set_connecting :
      (v : Bool) → control (set_connecting v r) ≡ record (control r) { connecting = v }
  unfolding control set_connecting
  control-set_connecting v = ground arith

  pub control-set_auto_reconnect :
      (v : Bool) → control (set_auto_reconnect v r) ≡ record (control r) { auto_reconnect = v }
  unfolding control set_auto_reconnect
  control-set_auto_reconnect v = ground arith

  pub control-set_reconnect_attempts :
      (n : ℕ) → control (set_reconnect_attempts n r) ≡ record (control r) { attempts = n }
  unfolding control set_reconnect_attempts
  control-set_reconnect_attempts n = ground arith

  pub control-set_error_string : (e : Text) → control (set_error_string e r) ≡ control r
  unfolding control set_error_string
  control-set_error_string e =
      if-both (λ (t : Remote V). control t ≡ control r) (text_eq r.error_string e) refl refl

  pub control-append_log : (time line : Text) → control (append_log time line r) ≡ control r
  unfolding control append_log
  control-append_log time line = refl

  pub control-set_heartbeat_rtt : (ms : ℤ) → control (set_heartbeat_rtt ms r) ≡ control r
  unfolding control set_heartbeat_rtt
  control-set_heartbeat_rtt ms = if-both (λ (t : Remote V). control t ≡ control r) _ refl refl

  pub control-reset_remote : control (reset_remote r) ≡ control r
  unfolding control reset_remote
  control-reset_remote = refl

  pub control-set_last_cmd_ack : (m : V.Map) → control (set_last_cmd_ack m r) ≡ control r
  unfolding control set_last_cmd_ack
  control-set_last_cmd_ack m = refl

  pub control-apply_state : (m : V.Map) → control (apply_state V m r) ≡ control r
  unfolding control apply_state
  control-apply_state m = refl

pub ruleset control_laws = (
  control-set_endpoint, control-set_hello_info, control-set_connected, control-set_connecting,
  control-set_auto_reconnect, control-set_reconnect_attempts, control-set_error_string,
  control-append_log, control-set_heartbeat_rtt, control-reset_remote, control-set_last_cmd_ack,
  control-apply_state,
)
