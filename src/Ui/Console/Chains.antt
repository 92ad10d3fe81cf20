-- ===== src/Ui/Console/Chains.antt =====
-- The chains of calls by which the controller changes the robot state
-- (ui/botcockpit/src/connectioncontroller.cpp), on the members that its decisions rest on.
use bot_cock_pit.Prelude.{ℕ, ◌≡◌, true, false, []}
use bot_cock_pit.Int.{ℤ}
use bot_cock_pit.Text.{Text}
use bot_cock_pit.Ui.Remote.{Variants, Remote}
use bot_cock_pit.Ui.Remote.Control.{control, control_laws}
use bot_cock_pit.Ui.Remote.Slots.{
  set_reconnect_attempts, append_log, set_last_cmd_ack, set_connecting, set_connected,
  set_error_string, set_endpoint, set_hello_info, reset_remote,
}

module _ {V : Variants} (r : Remote V) (time : Text) where
  pub noted_off :
      (line m : Text)
      → control (
          append_log time line
            (reset_remote (set_error_string m (set_connected false (set_connecting false r)))))
        ≡ record (control r) { connected = false; connecting = false }
  noted_off line m = simp control_laws

  pub closed :
      (line : Text)
      → control (append_log time line (reset_remote (set_connected false (set_connecting false r))))
        ≡ record (control r) { connected = false; connecting = false }
  closed line = simp control_laws

  pub opened :
      (line : Text)
      → control
          (append_log time line (set_error_string [] (set_connected false (set_connecting true r))))
        ≡ record (control r) { connected = false; connecting = true }
  opened line = simp control_laws

  pub called :
      (line host : Text) (port : ℤ)
      → control (
          append_log time line
            (set_error_string [] (set_connecting true (set_endpoint host port r))))
        ≡ record (control r) { connecting = true }
  called line host port = simp control_laws

  pub turned_away :
      (line reason : Text)
      → control (
          set_connecting false
            (set_connected false (append_log time line (set_error_string reason r))))
        ≡ record (control r) { connected = false; connecting = false }
  turned_away line reason = simp control_laws

  pub counted :
      (line : Text) (n : ℕ)
      → control (append_log time line (set_reconnect_attempts n r))
        ≡ record (control r) { attempts = n }
  counted line n = simp control_laws

  pub acked :
      (m : V.Map) (line : Text) → control (append_log time line (set_last_cmd_ack m r)) ≡ control r
  acked m line = simp control_laws

  pub retried :
      control (set_error_string [] (set_connecting true r))
      ≡ record (control r) { connecting = true }
  retried = simp control_laws

  pub greeted :
      (line proto server : Text)
      → control (
          append_log time line (
            set_error_string [] (
              set_connected true
                (set_connecting false (set_reconnect_attempts 0 (set_hello_info proto server r))))))
        ≡ record (control r) { connected = true; connecting = false; attempts = 0 }
  greeted line proto server = simp control_laws
