-- ===== src/Robot/Invariant/Links.antt =====
-- Safety and the console's link (sim/src/fake_robot.cpp).
use bot_cock_pit.Prelude.{
  ◌≡◌, sym, ap, ◌∙◌, Bool, true, false, arith, if◌then◌else◌, if-intro, if-both,
}
use bot_cock_pit.Floats.{Floats}
use bot_cock_pit.Robot.{Robot, Phase, running, idle, warn}
use bot_cock_pit.Robot.Control.{is_running, apply_safety_stop}
use bot_cock_pit.Robot.Lifecycle.{link_down}
use bot_cock_pit.Robot.Invariant.{IsSafe, recompute-IsSafe, publish_state-IsSafe}
use bot_cock_pit.Robot.Invariant.Rules.{record-control}

pub never_running : (p : Phase) (b : Bool) → (if is_running p then idle else p) ≡ running → b ≡ true
never_running p b h = ground arith

pub drop_control-IsSafe :
    {F : Floats} (r : Robot F)
    → IsSafe r
    → IsSafe (if r.console_online then r else record r { control_enabled = false })
drop_control-IsSafe r v = if-both IsSafe r.console_online v (record-control v (λ h. cc))

-- A safety stop leaves a safe robot, whatever the robot was doing.
pub apply_safety_stop-IsSafe : {F : Floats} (r : Robot F) → IsSafe (apply_safety_stop r)
unfolding apply_safety_stop
apply_safety_stop-IsSafe r =
    publish_state-IsSafe
      (drop_control-IsSafe _ (recompute-IsSafe _ (never_running r.phase r.console_online)))

pub link_down-online :
    {F : Floats} (r : Robot F) → (link_down r).phase ≡ running → (link_down r).console_online ≡ true
unfolding link_down
link_down-online {F} r =
    let s = record r { console_online = false; bridge_node = warn } in
    if-intro {A = Robot F} (λ t. t.phase ≡ running → t.console_online ≡ true) (is_running r.phase)
      {x = apply_safety_stop s} {y = s} (λ _. (apply_safety_stop-IsSafe s).running_online)
      (λ h e. cc (sym h ∙ ap is_running e))
