-- ===== src/Robot/Invariant/Rules.antt =====
-- Rules for the safety of one state (sim/src/fake_robot.cpp).
use bot_cock_pit.Prelude.{◌≡◌, Bool, true, false, arith, if-both, ◌&&◌}
use bot_cock_pit.Floats.{Floats}
use bot_cock_pit.Robot.{Robot, Phase, CmdResult, running, fault, idle}
use bot_cock_pit.Robot.Control.{
  publish_cmd_result, is_idle, has_error_condition, has_warn_condition, recompute_phase_and_control,
}
use bot_cock_pit.Robot.Command.Task.{blocked}
use bot_cock_pit.Robot.Command.{leave_fault}
use bot_cock_pit.Robot.Invariant.{IsSafe}

-- Control may be given to an idle robot whose console is there.
pub record-control :
    {F : Floats} {r : Robot F} {c : Bool}
    → IsSafe r
    → (c ≡ true → (r.phase ≡ idle) × (r.console_online ≡ true))
    → IsSafe (record r { control_enabled = c })
unfolding has_error_condition has_warn_condition
record-control {r} {c} v h = record {
  estop_holds = v.estop_holds;
  estop_only = v.estop_only;
  running_online = v.running_online;
  running_sound = v.running_sound;
  idle_sound = v.idle_sound;
  control_idle = λ e. (h e).0;
  control_online = λ e. (h e).1;
  idle_calm = v.idle_calm;
}

pub online_idle : (b : Bool) (p : Phase) → (b && is_idle p) ≡ true → (p ≡ idle) × (b ≡ true)
online_idle b p h = ground arith

pub online_idle_free :
    (b : Bool) (p : Phase) (c : Bool) → (b && is_idle p && c) ≡ true → (p ≡ idle) × (b ≡ true)
online_idle_free b p c h = ground arith

pub no_control : {A : Type 0} → false ≡ true → A
no_control h = cc

pub recompute-fault :
    {F : Floats} (r : Robot F)
    → (recompute_phase_and_control r).phase ≡ fault
    → has_error_condition (recompute_phase_and_control r) ≡ true
unfolding recompute_phase_and_control
recompute-fault r h = ground arith

pub leave_fault-eq :
    {F : Floats} (s : Robot F)
    → (s.phase ≡ fault → has_error_condition s ≡ true)
    → leave_fault s ≡ s
unfolding leave_fault
leave_fault-eq s h = ground arith

pub running-IsSafe :
    {F : Floats} (s : Robot F)
    → s.phase ≡ running
    → s.estop ≡ false
    → s.console_online ≡ true
    → s.control_enabled ≡ false
    → has_error_condition s ≡ false
    → IsSafe s
running-IsSafe s p e o c h = ground arith

-- What is not blocked can start a task.
pub record IsReady {F : Floats} (r : Robot F) : Type 0 where
  pub free : r.estop ≡ false
  pub online : r.console_online ≡ true
  pub sound : has_error_condition r ≡ false

pub unblocked-IsReady : {F : Floats} (r : Robot F) → IsSafe r → blocked r ≡ false → IsReady r
unfolding blocked
unblocked-IsReady r v h = ground arith

pub publish_cmd_result-online :
    {F : Floats} (r : Robot F) (c : CmdResult)
    → (r.phase ≡ running → r.console_online ≡ true)
    → (publish_cmd_result c r).phase ≡ running
    → (publish_cmd_result c r).console_online ≡ true
unfolding publish_cmd_result
publish_cmd_result-online {F} r c h =
    if-both {A = Robot F} (λ s. s.phase ≡ running → s.console_online ≡ true) r.topics h h
