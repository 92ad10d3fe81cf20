-- ===== src/Robot/Held.antt =====
-- A stopped robot and the commands (sim/src/fake_robot.cpp, on_cmd): none but a reset frees or moves
-- it.
use mathlib.Core.Option
use bot_cock_pit.Prelude.{
  ℕ, ◌≡◌, refl, true, false, not, ◌&&◌, ◌||◌, [], inl, inr, arith, if◌then◌else◌, if-both,
  Option-cases,
}
use bot_cock_pit.Text.{Text, codes, text_eq}
use bot_cock_pit.Floats.{Floats}
use bot_cock_pit.Robot.{Robot, Reason, CmdResult, ok, warn}
use bot_cock_pit.Robot.Extract.{extract_string}
use bot_cock_pit.Robot.Control.{
  is_running, has_error_condition, recompute_phase_and_control, publish_cmd_result, inject_fault,
  clear_faults,
}
use bot_cock_pit.Robot.Command.{
  is_auto, parse_mode, set_mode, on_estop, on_mode, on_inject_fault, on_clear_fault, leave_fault,
  dispatch, is_fault,
}
use bot_cock_pit.Robot.Command.Task.{Planner, accept, reject, blocked, on_pause, on_cancel, on_task}
use bot_cock_pit.Robot.Invariant.Still.{
  IsHeld, carry-IsHeld, publish_state-IsHeld, recompute-IsHeld,
}

pub kept :
    {F : Floats} {q s t : Robot F}
    → IsHeld q s
    → t.pose_x ≡ s.pose_x
    → t.pose_y ≡ s.pose_y
    → t.pose_yaw ≡ s.pose_yaw
    → t.estop ≡ s.estop
    → IsHeld q t
kept {q} {s} {t} h x y yaw e = carry-IsHeld q s t h x y yaw e

module _ {F : Floats} {q r : Robot F} (h : IsHeld q r) where
  publish_cmd_result-IsHeld : (c : CmdResult) → IsHeld q (publish_cmd_result c r)
  unfolding publish_cmd_result
  publish_cmd_result-IsHeld c = if-both (IsHeld q) r.topics (kept h refl refl refl refl) h

  accept-IsHeld : (seq : ℕ) (cmd task_id : Text) → IsHeld q (accept seq cmd task_id r)
  unfolding accept
  accept-IsHeld seq cmd task_id = publish_cmd_result-IsHeld _

  pub reject-IsHeld :
      (seq : ℕ) (cmd : Text) (why : Reason) (task_id : Text)
      → IsHeld q (reject seq cmd why task_id r)
  unfolding reject
  reject-IsHeld seq cmd why task_id = publish_cmd_result-IsHeld _

leave_fault-IsHeld : {F : Floats} (q r : Robot F) → IsHeld q r → IsHeld q (leave_fault r)
unfolding leave_fault
leave_fault-IsHeld q r h =
    if-both (IsHeld q) (is_fault r.phase && not (has_error_condition r))
      (kept h refl refl refl refl) h

module _ {F : Floats} (q r : Robot F) (h : IsHeld q r) where
  on_mode-IsHeld : (seq : ℕ) (msg : Text) → IsHeld q (on_mode seq msg r)
  unfolding on_mode set_mode
  on_mode-IsHeld seq msg = elim (Option-cases (extract_string msg (codes "mode"))) [
    | inl e ↦ rw (e, on_mode) (reject-IsHeld h seq _ _ [])
    | inr (text, e) ↦ elim (Option-cases (parse_mode text)) [
      | inl k ↦ rw (e, on_mode) (rw k (reject-IsHeld h seq _ _ []))
      | inr (mode, k) ↦
          rw (e, on_mode)
            (rw k (
              if-both (IsHeld q) (is_auto mode && blocked r) (reject-IsHeld h seq _ _ [])
                (publish_state-IsHeld q _ (accept-IsHeld (kept h refl refl refl refl) seq _ []))))
    ]
  ]

  on_inject_fault-IsHeld : (seq : ℕ) (cmd msg : Text) → IsHeld q (on_inject_fault seq cmd msg r)
  unfolding on_inject_fault inject_fault
  on_inject_fault-IsHeld seq cmd msg =
      publish_state-IsHeld q _
        (accept-IsHeld (recompute-IsHeld q _ (kept h refl refl refl refl)) seq cmd [])

  on_pause-IsHeld : (seq : ℕ) (task_id : Text) → IsHeld q (on_pause seq task_id r)
  unfolding on_pause
  on_pause-IsHeld seq task_id = publish_state-IsHeld q _ (
      if-both (IsHeld q) (is_running r.phase)
        (accept-IsHeld (recompute-IsHeld q _ (kept h refl refl refl refl)) seq _ _)
        (reject-IsHeld h seq _ _ _))

  on_cancel-IsHeld : (seq : ℕ) → IsHeld q (on_cancel seq r)
  unfolding on_cancel
  on_cancel-IsHeld seq =
      publish_state-IsHeld q _
        (accept-IsHeld (recompute-IsHeld q _ (kept h refl refl refl refl)) seq _ _)

  -- A stopped robot is blocked.
  blocked-true : blocked r ≡ true
  unfolding blocked
  blocked-true = ground arith

  on_task-IsHeld : (plan : Planner F) (seq : ℕ) (msg : Text) → IsHeld q (on_task plan seq msg r)
  unfolding on_task
  on_task-IsHeld plan seq msg =
      let type = Option.get_or (extract_string msg (codes "type")) [] in
      let task_id = Option.get_or (extract_string msg (codes "task_id")) [] in
      if-both (IsHeld q) (text_eq type (codes "pause")) (on_pause-IsHeld seq task_id) (
        if-both (IsHeld q) (text_eq type (codes "cancel")) (on_cancel-IsHeld seq)
          (rw blocked-true (reject-IsHeld h seq _ _ task_id)))

  on_clear_fault-IsHeld : (seq : ℕ) (cmd : Text) → IsHeld q (on_clear_fault seq cmd r)
  unfolding on_clear_fault clear_faults
  on_clear_fault-IsHeld seq cmd =
      let s =
        recompute_phase_and_control
          (record (clear_faults r) { bridge_node = if r.console_online then ok else warn }) in
      let held = leave_fault-IsHeld q s (recompute-IsHeld q _ (kept h refl refl refl refl)) in
      publish_state-IsHeld q _ (accept-IsHeld (kept held refl refl refl refl) seq cmd [])

  on_estop-IsHeld : (seq : ℕ) → IsHeld q (on_estop seq r)
  unfolding on_estop
  on_estop-IsHeld seq = publish_state-IsHeld q _ (
      accept-IsHeld
        (record { pose_x = h.pose_x; pose_y = h.pose_y; pose_yaw = h.pose_yaw; stopped = refl }) seq
        _ [])

  -- Every command but a reset leaves a stopped robot stopped.
  pub dispatch-IsHeld :
      (plan : Planner F) (cmd : Text) (seq : ℕ) (msg : Text)
      → text_eq cmd (codes "CMD_RESET") ≡ false
      → IsHeld q (dispatch plan cmd seq msg r)
  unfolding dispatch
  dispatch-IsHeld plan cmd seq msg other =
      let is = λ (name : Text). text_eq cmd name in
      if-both (IsHeld q) (is (codes "CMD_ESTART") || is (codes "CMD_ESTOP")) (on_estop-IsHeld seq) (
        rw other (
          if-both (IsHeld q) (is (codes "CMD_MODE")) (on_mode-IsHeld seq msg) (
            if-both (IsHeld q) (is (codes "CMD_TASK")) (on_task-IsHeld plan seq msg) (
              if-both (IsHeld q) (is (codes "INJECT_FAULT") || is (codes "CMD_INJECT_FAULT"))
                (on_inject_fault-IsHeld seq cmd msg)
                (if-both (IsHeld q) (is (codes "CLEAR_FAULT") || is (codes "CMD_CLEAR_FAULT"))
                  (on_clear_fault-IsHeld seq cmd) (reject-IsHeld h seq cmd _ []))))))
