-- ===== src/Robot/Reset.antt =====
-- What becomes of a CMD_RESET (sim/src/fake_robot.cpp, on_cmd).
use bot_cock_pit.Prelude.{
  ◌≡◌, refl, sym, ap, subst, ◌∙◌, true, false, not, ◌||◌, some, ◌∷◌, ℕ, arith, if-both, if-intro,
}
use bot_cock_pit.Text.{Text, codes}
use bot_cock_pit.Floats.{Floats}
use bot_cock_pit.Robot.{Robot, CmdResult, state_json}
use bot_cock_pit.Robot.Extract.{extract_string, extract_seq}
use bot_cock_pit.Robot.Control.{publish_state, publish_cmd_result, any_fault}
use bot_cock_pit.Robot.Message.{build_state_json}
use bot_cock_pit.Robot.Command.{recover, on_reset, on_cmd, is_blocking}
use bot_cock_pit.Robot.Command.Task.{Planner, accept, reject}
use bot_cock_pit.Robot.Standstill.{is_confirmed}
use bot_cock_pit.Robot.Estop.{on_cmd-some, dispatch_reset}
use bot_cock_pit.Robot.Recover.{IsRecovered, recover-IsRecovered}

-- Nothing but the outputs has changed.
abbrev pub IsUntouched : {F : Floats} → Robot F → Robot F → Type 0
IsUntouched r s = s ≡ record r { outbox = s.outbox }

-- The reset is done, or refused and without effect.
pub data IsReset {F : Floats} (r : Robot F) (msg : Text) (s : Robot F) : Type 0 where
  done :
      is_confirmed msg ≡ true
      → any_fault is_blocking r.faults ≡ false
      → IsRecovered s
      → IsReset r msg s
  refused :
      (not (is_confirmed msg) || any_fault is_blocking r.faults) ≡ true
      → IsUntouched r s
      → IsReset r msg s

module _ {F : Floats} where
  publish_state-IsUntouched : (r s : Robot F) → IsUntouched r s → IsUntouched r (publish_state s)
  unfolding publish_state
  publish_state-IsUntouched r s h =
      let out = state_json (build_state_json s) ∷ s.outbox in
      if-both (IsUntouched r) s.topics (ap (λ (t : Robot F). record t { outbox = out }) h) h

  publish_cmd_result-IsUntouched :
      (c : CmdResult) (r : Robot F) → IsUntouched r (publish_cmd_result c r)
  unfolding publish_cmd_result
  publish_cmd_result-IsUntouched c r = if-both (IsUntouched r) r.topics refl refl

  outputs-IsRecovered : (r s : Robot F) → IsUntouched r s → IsRecovered r → IsRecovered s
  outputs-IsRecovered r s h v = subst IsRecovered (sym h) (record {
    phase = v.phase;
    mode = v.mode;
    estop = v.estop;
    task_status = v.task_status;
    task_id = v.task_id;
    task_type = v.task_type;
    faults = v.faults;
    robot_node = v.robot_node;
    control = v.control;
  })

  on_reset-IsReset : (seq : ℕ) (msg : Text) (r : Robot F) → IsReset r msg (on_reset seq msg r)
  unfolding on_reset accept reject
  on_reset-IsReset seq msg r =
      let P = IsReset r msg in
      if-intro P (is_confirmed msg)
        (λ yes.
          if-intro P (any_fault is_blocking r.faults)
            (λ busy.
              refused (ground (arith, busy))
                (publish_state-IsUntouched r _ (publish_cmd_result-IsUntouched _ r)))
            (λ free. done yes free (
              outputs-IsRecovered (recover r) _
                (publish_state-IsUntouched (recover r) _
                  (publish_cmd_result-IsUntouched _ (recover r)))
                (recover-IsRecovered r))))
        (λ no. refused (ground (arith, no)) (publish_cmd_result-IsUntouched _ r))

  -- A CMD_RESET with confirm true, to a robot without an ERROR fault that a reset may not clear,
  -- leaves it idle, in TELEOP, with no stop, task or fault, with its own node OK, and with
  -- control exactly when the console is online. Every other CMD_RESET changes nothing but what
  -- has been published.
  pub on_cmd-IsReset :
      (plan : Planner F) (msg : Text) (r : Robot F)
      → extract_string msg (codes "cmd") ≡ some (codes "CMD_RESET")
      → IsReset r msg (on_cmd plan msg r)
  on_cmd-IsReset plan msg r e =
      let seq = extract_seq F msg in
      subst (IsReset r msg)
        (sym (on_cmd-some plan r msg (codes "CMD_RESET") e ∙ dispatch_reset plan r seq msg))
        (on_reset-IsReset seq msg r)
