-- ===== src/Robot/Recover.antt =====
-- What a reset and an emergency stop leave behind (sim/src/fake_robot.cpp, on_cmd).
use bot_cock_pit.Prelude.{
  ℕ, ◌≡◌, refl, ◌∙◌, Bool, true, false, List, [], ◌∷◌, ◌++◌, arith, if-both, Bool-cases, inl, inr,
}
use bot_cock_pit.Floats.{Floats}
use bot_cock_pit.Text.{Text}
use bot_cock_pit.Robot.{Robot, idle, teleop, nothing, no_type, ok, FaultItem}
use bot_cock_pit.Robot.Control.{
  has_error_condition, has_warn_condition, recompute_phase_and_control, clear_faults, publish_state,
  publish_cmd_result, any_fault,
}
use bot_cock_pit.Robot.Command.{recover, on_estop, is_estop_fault}
use bot_cock_pit.Robot.Command.Task.{accept}

-- A robot at rest: the operator has control when the console is there.
pub record IsRecovered {F : Floats} (r : Robot F) : Type 0 where
  pub phase : r.phase ≡ idle
  pub mode : r.mode ≡ teleop
  pub estop : r.estop ≡ false
  pub task_status : r.task_status ≡ nothing
  pub task_id : r.task_id ≡ []
  pub task_type : r.task_type ≡ no_type
  pub faults : r.faults ≡ []
  pub robot_node : r.robot_node ≡ ok
  pub control : r.control_enabled ≡ r.console_online

-- What `recover` leaves.
pub recover-IsRecovered : {F : Floats} (r : Robot F) → IsRecovered (recover r)
unfolding recover recompute_phase_and_control clear_faults has_error_condition has_warn_condition
recover-IsRecovered r = record {
  phase = ground arith;
  mode = ground arith;
  estop = ground arith;
  task_status = ground arith;
  task_id = ground arith;
  task_type = ground arith;
  faults = ground arith;
  robot_node = ground arith;
  control = ground arith;
}

any_fault-append :
    (p : FaultItem → Bool) (fs : List FaultItem) (f : FaultItem)
    → p f ≡ true
    → any_fault p (fs ++ f ∷ []) ≡ true
any_fault-append p [] f h = ground (arith, h)
any_fault-append p (g ∷ fs) f h = ground (arith, any_fault-append p fs f h)

module _ {F : Floats} where
  publish_state-faults : (r : Robot F) → (publish_state r).faults ≡ r.faults
  unfolding publish_state
  publish_state-faults r = if-both (λ (s : Robot F). s.faults ≡ r.faults) r.topics refl refl

  accept-faults :
      (seq : ℕ) (cmd task_id : Text) (r : Robot F) → (accept seq cmd task_id r).faults ≡ r.faults
  unfolding accept publish_cmd_result
  accept-faults seq cmd task_id r =
      if-both (λ (s : Robot F). s.faults ≡ r.faults) r.topics refl refl

  on_estop-faults :
      (seq : ℕ) (r : Robot F)
      → any_fault (λ f. is_estop_fault f.code) (on_estop seq r).faults ≡ true
  unfolding on_estop
  on_estop-faults seq r =
      rw (publish_state-faults, on_estop)
        (rw accept-faults (elim (Bool-cases (any_fault (λ f. is_estop_fault f.code) r.faults)) [
          | inl e ↦ rw e e
          | inr e ↦ rw e (any_fault-append (λ f. is_estop_fault f.code) r.faults _ refl)
        ]))

  on_estop_known :
      (seq : ℕ) (r : Robot F)
      → any_fault (λ f. is_estop_fault f.code) r.faults ≡ true
      → (on_estop seq r).faults ≡ r.faults
  unfolding on_estop
  on_estop_known seq r e = publish_state-faults _ ∙ accept-faults _ _ _ _ ∙ rw e refl

  -- A second emergency stop adds no fault, in every robot.
  pub on_estop-again :
      (seq seq' : ℕ) (r : Robot F)
      → (on_estop seq' (on_estop seq r)).faults ≡ (on_estop seq r).faults
  on_estop-again seq seq' r = on_estop_known seq' (on_estop seq r) (on_estop-faults seq r)
