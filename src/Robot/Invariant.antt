-- ===== src/Robot/Invariant.antt =====
-- What holds of the robot between two callbacks (sim/src/fake_robot.cpp).
mod Rules
pub mod Commands
pub mod Tasks
mod Links
pub mod Ticks
pub mod Still
pub mod Callbacks
use bot_cock_pit.Prelude.{refl, ◌≡◌, ◌≢◌, ◌⊎◌, Bool, true, false, arith, [], ℕ, List, if-intro}
use bot_cock_pit.Text.{Text}
use bot_cock_pit.Floats.{Floats}
use bot_cock_pit.Robot.{
  Robot, boot, initializing, idle, running, estopped, goto, CmdResult, Reason, Output,
}
use bot_cock_pit.Robot.Command.Task.{is_nil, accept, reject}
use bot_cock_pit.Robot.Control.{
  has_error_condition, has_warn_condition, recompute_phase_and_control, is_starting, is_pending,
  publish_state, publish_cmd_result,
}

-- The safety of the robot: an emergency stop holds the phase, a task runs only without errors and
-- with the console, and control is enabled only in an idle robot that nothing is wrong with.
pub record IsSafe {F : Floats} (r : Robot F) : Type 0 where
  pub estop_holds : r.estop ≡ true → (r.phase ≡ estopped) ⊎ (is_starting r.phase ≡ true)
  pub estop_only : r.phase ≡ estopped → r.estop ≡ true
  pub running_online : r.phase ≡ running → r.console_online ≡ true
  pub running_sound : r.phase ≡ running → has_error_condition r ≡ false
  pub idle_sound : r.phase ≡ idle → has_error_condition r ≡ false
  pub control_idle : r.control_enabled ≡ true → r.phase ≡ idle
  pub control_online : r.control_enabled ≡ true → r.console_online ≡ true
  pub idle_calm : r.phase ≡ idle → has_warn_condition r ≡ false

-- Each clause of the safety of the robot after recomputing.
module _ {F : Floats} (r : Robot F) where
  recompute-estop_holds :
      (recompute_phase_and_control r).estop ≡ true
      → ((recompute_phase_and_control r).phase ≡ estopped)
        ⊎ (is_starting (recompute_phase_and_control r).phase ≡ true)
  unfolding recompute_phase_and_control
  recompute-estop_holds = ground arith

  recompute-estop_only :
      (recompute_phase_and_control r).phase ≡ estopped
      → (recompute_phase_and_control r).estop ≡ true
  unfolding recompute_phase_and_control
  recompute-estop_only = ground arith

  recompute-running_online :
      (r.phase ≡ running → r.console_online ≡ true)
      → (recompute_phase_and_control r).phase ≡ running
      → (recompute_phase_and_control r).console_online ≡ true
  unfolding recompute_phase_and_control
  recompute-running_online h = ground arith

  recompute-running_sound :
      (recompute_phase_and_control r).phase ≡ running
      → has_error_condition (recompute_phase_and_control r) ≡ false
  unfolding recompute_phase_and_control
  recompute-running_sound = ground arith

  recompute-idle_sound :
      (recompute_phase_and_control r).phase ≡ idle
      → has_error_condition (recompute_phase_and_control r) ≡ false
  unfolding recompute_phase_and_control
  recompute-idle_sound = ground arith

  recompute-idle_calm :
      (recompute_phase_and_control r).phase ≡ idle
      → has_warn_condition (recompute_phase_and_control r) ≡ false
  unfolding recompute_phase_and_control
  recompute-idle_calm = ground arith

  recompute-control_idle :
      (recompute_phase_and_control r).control_enabled ≡ true
      → (recompute_phase_and_control r).phase ≡ idle
  unfolding recompute_phase_and_control
  recompute-control_idle = ground arith

  recompute-control_online :
      (recompute_phase_and_control r).control_enabled ≡ true
      → (recompute_phase_and_control r).console_online ≡ true
  unfolding recompute_phase_and_control
  recompute-control_online = ground arith

-- Recomputing makes the phase and the control fit the state, whatever they were; the caller answers
-- for a phase that says RUNNING.
pub recompute-IsSafe :
    {F : Floats} (r : Robot F)
    → (r.phase ≡ running → r.console_online ≡ true)
    → IsSafe (recompute_phase_and_control r)
recompute-IsSafe r h = record {
  estop_holds = recompute-estop_holds r;
  estop_only = recompute-estop_only r;
  running_online = recompute-running_online r h;
  running_sound = recompute-running_sound r;
  idle_sound = recompute-idle_sound r;
  idle_calm = recompute-idle_calm r;
  control_idle = recompute-control_idle r;
  control_online = recompute-control_online r;
}

-- Safety looks at the phase, the two flags, the console's link and at what is wrong, at nothing else.
pub unmoved-IsSafe :
    {F : Floats} (r s : Robot F)
    → IsSafe r
    → s.phase ≡ r.phase
    → s.estop ≡ r.estop
    → s.control_enabled ≡ r.control_enabled
    → s.console_online ≡ r.console_online
    → has_error_condition s ≡ has_error_condition r
    → has_warn_condition s ≡ has_warn_condition r
    → IsSafe s
unmoved-IsSafe r s v phase estop control online errors warnings = record {
  estop_holds = ground (arith, v);
  estop_only = ground (arith, v);
  running_online = ground (arith, v);
  running_sound = ground (arith, v);
  idle_sound = ground (arith, v);
  control_idle = ground (arith, v);
  control_online = ground (arith, v);
  idle_calm = ground (arith, v);
}

module _ {F : Floats} {r : Robot F} where
  outbox-IsSafe : (o : List Output) → IsSafe r → IsSafe (record r { outbox = o })
  unfolding has_error_condition has_warn_condition
  outbox-IsSafe o v = unmoved-IsSafe r _ v refl refl refl refl refl refl

  pub publish_state-IsSafe : IsSafe r → IsSafe (publish_state r)
  unfolding publish_state
  publish_state-IsSafe v = if-intro IsSafe r.topics (λ _. outbox-IsSafe _ v) (λ _. v)

  pub publish_cmd_result-IsSafe : (c : CmdResult) → IsSafe r → IsSafe (publish_cmd_result c r)
  unfolding publish_cmd_result
  publish_cmd_result-IsSafe c v = if-intro IsSafe r.topics (λ _. outbox-IsSafe _ v) (λ _. v)

  pub accept-IsSafe : (seq : ℕ) (cmd task_id : Text) → IsSafe r → IsSafe (accept seq cmd task_id r)
  unfolding accept
  accept-IsSafe seq cmd task_id v = publish_cmd_result-IsSafe _ v

  pub reject-IsSafe :
      (seq : ℕ) (cmd : Text) (why : Reason) (task_id : Text)
      → IsSafe r
      → IsSafe (reject seq cmd why task_id r)
  unfolding reject
  reject-IsSafe seq cmd why task_id v = publish_cmd_result-IsSafe _ v
