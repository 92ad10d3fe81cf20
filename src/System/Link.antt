-- ===== src/System/Link.antt =====
-- The console's link as the robot hears of it: bridge/src/bridge_node.cpp (delta_timer_cb) and
-- sim/src/fake_robot.cpp (on_console). The server has been started.
use bot_cock_pit.Prelude.{
  ℕ, ◌≡◌, refl, ◌∙◌, Bool, true, false, ◌++◌, some, arith, if◌then◌else◌, if-both, if-intro, ltb,
}
use bot_cock_pit.Text.{Text, codes, find_after, strip_prefix}
use bot_cock_pit.Floats.{Floats}
use bot_cock_pit.Robot.{Robot, warn}
use bot_cock_pit.Robot.Extract.{extract_bool, field_value, skip_blanks}
use bot_cock_pit.Robot.Control.{
  recompute_phase_and_control, publish_state, apply_safety_stop, is_running,
}
use bot_cock_pit.Robot.Lifecycle.{on_console, link_up, link_down}
use bot_cock_pit.Robot.Invariant.{IsSafe}
use bot_cock_pit.Robot.Invariant.Callbacks.{on_console-IsSafe}
use bot_cock_pit.Bridge.Server.{broadcast_state_delta}
use bot_cock_pit.Bridge.Clients.{Server, client_count}
use bot_cock_pit.Bridge.Node.{state_for_tcp, console_msg}
use bot_cock_pit.System.{System}

-- The robot's subscription to `botcockpit/console`, which it has while it has its topics.
unfoldable pub hear_console : {F : Floats} → Text → Robot F → Robot F
hear_console msg r = if r.topics then on_console msg r else r

-- The timer of the node, and the robot's subscription to `botcockpit/console`. The robot's clock
-- shows the same time.
unfoldable pub delta_timer_cb : {F : Floats} → ℕ → System F → System F
unfolding hear_console
delta_timer_cb now sys =
    let s = broadcast_state_delta (state_for_tcp now sys.node) sys.server in
    record sys {
      server = s;
      robot = hear_console (console_msg (client_count s)) (record sys.robot { now_ms = now });
    }

-- The robot knows whether a client has shaken hands, and is safe.
pub record IsLinked {F : Floats} (s : Server) (r : Robot F) : Type 0 where
  pub online : r.console_online ≡ ltb 0 (client_count s)
  pub safe : IsSafe r

abbrev online_msg : Bool → Text
online_msg b = codes "{\"online\":" ++ (if b then codes "true" else codes "false") ++ codes "}"

extract_bool-online_msg : (b : Bool) → extract_bool (online_msg b) (codes "online") ≡ some b
unfolding extract_bool field_value find_after skip_blanks strip_prefix
extract_bool-online_msg true = refl
extract_bool-online_msg false = refl

module _ {F : Floats} where
  recompute-online :
      (r : Robot F) → (recompute_phase_and_control r).console_online ≡ r.console_online
  unfolding recompute_phase_and_control
  recompute-online r = ground arith

  publish_state-online : (r : Robot F) → (publish_state r).console_online ≡ r.console_online
  unfolding publish_state
  publish_state-online r =
      if-both (λ (t : Robot F). t.console_online ≡ r.console_online) r.topics refl refl

  -- Without the console the control is taken, and then the state goes out.
  settle-online :
      (r : Robot F) (b : Bool)
      → r.console_online ≡ b
      → let s = recompute_phase_and_control r in
        (publish_state
          (if s.console_online then s else record s { control_enabled = false })).console_online
        ≡ b
  settle-online r b e =
      let s = recompute_phase_and_control r in
      publish_state-online _
      ∙ if-both (λ (t : Robot F). t.console_online ≡ b) s.console_online (recompute-online r ∙ e)
          (recompute-online r ∙ e)

  apply_safety_stop-online : (r : Robot F) → (apply_safety_stop r).console_online ≡ r.console_online
  unfolding apply_safety_stop
  apply_safety_stop-online r = settle-online _ r.console_online refl

  link-online : (b : Bool) (r : Robot F) → (if b then link_up r else link_down r).console_online ≡ b
  unfolding link_up link_down
  link-online true r = refl
  link-online false r =
      if-both (λ (t : Robot F). t.console_online ≡ false) (is_running r.phase)
        (apply_safety_stop-online (record r { console_online = false; bridge_node = warn })) refl

  on_console-online : (b : Bool) (r : Robot F) → (on_console (online_msg b) r).console_online ≡ b
  unfolding on_console
  on_console-online b r = rw (extract_bool-online_msg b) (settle-online _ b (link-online b r))

  -- After every round of the node's timer a robot that has its topics counts the console as
  -- online exactly when the server has a connected client that has shaken hands, and is safe;
  -- the message is not lost.
  pub delta_timer_cb-IsLinked :
      (now : ℕ) (sys : System F)
      → sys.robot.topics ≡ true
      → IsLinked (delta_timer_cb now sys).server (delta_timer_cb now sys).robot
  unfolding delta_timer_cb console_msg
  delta_timer_cb-IsLinked now sys heard =
      let s = broadcast_state_delta (state_for_tcp now sys.node) sys.server in
      let r = record sys.robot { now_ms = now } in
      let msg = online_msg (ltb 0 (client_count s)) in
      if-intro (IsLinked s) r.topics
        (λ _. record {
          online = on_console-online (ltb 0 (client_count s)) r;
          safe = on_console-IsSafe r msg;
        })
        (λ off. cc (off, heard))
